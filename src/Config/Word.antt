-- ===== src/Config/Word.antt =====
-- The words of src/daemon/config.c.
use boardcommd.Base.{Bytes, codes}

abbrev pub tcp : Bytes
tcp = codes "tcp"

abbrev pub uart : Bytes
uart = codes "uart"

abbrev pub uart232 : Bytes
uart232 = codes "uart232"

abbrev pub uart485 : Bytes
uart485 = codes "uart485"

abbrev pub rs485 : Bytes
rs485 = codes "rs485"

abbrev pub udpkcp : Bytes
udpkcp = codes "udpkcp"

abbrev pub mode_485 : Bytes
mode_485 = codes "485"

abbrev pub mode_485_gpio : Bytes
mode_485_gpio = codes "485:"

abbrev pub mode_232 : Bytes
mode_232 = codes "232"

abbrev pub server : Bytes
server = codes "server"

abbrev pub listen : Bytes
listen = codes "listen"

abbrev pub client : Bytes
client = codes "client"

abbrev pub connect : Bytes
connect = codes "connect"

abbrev pub udp0 : Bytes
udp0 = codes "udp0"

abbrev pub any : Bytes
any = codes "*"

abbrev pub default : Bytes
default = codes "default"

abbrev pub local_9101 : Bytes
local_9101 = codes "127.0.0.1:9101"

abbrev pub socket_path : Bytes
socket_path = codes "/tmp/boardcommd.sock"
