-- ===== src/Api/Control.antt =====
-- The frames that are only a header, against the daemon's reader.
use boardcommd.Base.{
  ℕ, ◌+◌, ◌<◌, ◌≡◌, refl, sym, ap, ◌∙◌, ◌++◌, Bytes, false, ltb, length, length-append, append-nil,
  [], arith, u16_mod,
}
use boardcommd.Types.{invalid, done, fail}
use boardcommd.Ipc.{ipc_header_size, put_ipc_header, length-put_ipc_header}
use boardcommd.Client.Frame.{get_ipc_header, parse_frame, next_frame}
use boardcommd.Api.{control_header}

get_ipc_header-control :
    (type : ℕ) (rest : Bytes)
    → type < u16_mod
    → get_ipc_header (put_ipc_header (control_header type) ++ rest) ≡ control_header type
unfolding get_ipc_header put_ipc_header
get_ipc_header-control type rest h = ground arith

-- A bug: `process_one_message` takes the 28 bytes of a frame that is nothing but a header for a
-- frame of its own, and `process_frame_buffer` refuses it with BC_ERR_INVALID, whatever its type
-- is, for want of a topic.
pub parse_frame-control_header :
    (type : ℕ) (rest : Bytes)
    → type < u16_mod
    → (next_frame (put_ipc_header (control_header type) ++ rest) ≡ done 28)
      × (parse_frame (put_ipc_header (control_header type)) ≡ fail invalid)
unfolding parse_frame next_frame ipc_header_size
parse_frame-control_header type rest h =
    let g = get_ipc_header-control type rest h in
    let g0 : get_ipc_header (put_ipc_header (control_header type)) ≡ control_header type =
      ap get_ipc_header (sym (append-nil (put_ipc_header (control_header type))))
      ∙ get_ipc_header-control type [] h in
    let n : length (put_ipc_header (control_header type) ++ rest) ≡ 28 + length rest =
      length-append (put_ipc_header (control_header type)) rest
      ∙ ap (λ x. x + length rest) (length-put_ipc_header (control_header type)) in
    let t1 : ltb (28 + length rest) 16 ≡ false = ground arith in
    let t2 : ltb (28 + length rest) 28 ≡ false = ground arith in
    (rw (g, n, t1, t2) refl, rw (g0, length-put_ipc_header (control_header type)) refl)
