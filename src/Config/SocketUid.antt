-- ===== src/Config/SocketUid.antt =====
-- What bc_config_load of src/daemon/config.c does with a line that sets `socket_uid`.
use boardcommd.Base.{
  ℕ, suc, ◌≡◌, ◌⊎◌, inl, inr, refl, ◌∙◌, false, List, [], ◌∷◌, ◌++◌, Bytes, some, ◌==◌, length,
  arith, codes, Bool-cases,
}
use boardcommd.Config.{Config, defaults}
use boardcommd.Config.Numbers.{skip_space, is_space}
use boardcommd.Config.Scan.{
  Directive, space, unsigned, word, literals, scan, text_at, fgets_lines, take_word,
}
use boardcommd.Config.Load.{
  socket_format, socket_uid_format, load_plugin, load_transport, load_channel, load_route,
  load_kind, load_line, load_lines, emptied, config_load,
}

-- A text gives a field only if it starts with the word that the format starts with.
scan-literals :
    (w : Bytes) (ds : List Directive) (s : Bytes)
    → (scan (literals w ds) s ≡ []) ⊎ ((rest : Bytes) × (s ≡ w ++ rest))
unfolding scan
scan-literals [] ds s = inr (s, refl)
scan-literals (c ∷ cs) ds [] = inl refl
scan-literals (c ∷ cs) ds (x ∷ xs) = elim (Bool-cases (x == c)) [
  | inl same ↦ elim (scan-literals cs ds xs) [
    | inl e ↦ inl (rw (same, e))
    | inr (rest, e) ↦ inr (rest, let q : x ≡ c = ground (arith, same) in rw (q, e))
  ]
  | inr other ↦ inl (rw other)
]

-- `%ns` reads a text that starts with no white space.
word-scan :
    (n c : ℕ) (cs : Bytes) → is_space c ≡ false → length (scan (word (suc n) ∷ []) (c ∷ cs)) ≡ 1
unfolding scan take_word skip_space
word-scan n c cs h = ground (arith, h)

socket-scan : (rest : Bytes) → length (scan socket_format (codes "socket_uid" ++ rest)) ≡ 1
unfolding scan skip_space
socket-scan rest = word-scan 126 b'_' (codes "uid" ++ rest) refl

-- What the format of `socket_uid` reads, the format of `socket` has read before.
socket_first :
    (line : Bytes)
    → (length (scan socket_format line) == 1) ≡ false
    → (length (scan socket_uid_format line) == 1) ≡ false
socket_first line other = elim (scan-literals (codes "socket_uid") (space ∷ (unsigned ∷ [])) line) [
  | inl e ↦ rw e
  | inr (rest, e) ↦
      let l : length (scan socket_format line) ≡ 1 = rw (e, socket-scan rest) in
      absurd (ground (arith, l, other))
]

load_kind-socket_uid :
    (kind line : Bytes) (cfg : Config) → (load_kind kind line cfg).socket_uid ≡ cfg.socket_uid
unfolding load_kind load_plugin load_transport load_channel load_route
load_kind-socket_uid kind line cfg = ground arith

load_line-socket_uid :
    (line : Bytes) (cfg : Config) → (load_line line cfg).socket_uid ≡ cfg.socket_uid
unfolding load_line
load_line-socket_uid line cfg =
    ground (
      arith,
      socket_first line,
      load_kind-socket_uid (text_at (scan (word 31 ∷ []) line) 0) line cfg,
    )

load_lines-socket_uid :
    (ls : List Bytes) (cfg : Config) → (load_lines ls cfg).socket_uid ≡ cfg.socket_uid
unfolding load_lines
load_lines-socket_uid [] cfg = refl
load_lines-socket_uid (l ∷ ls) cfg =
    load_lines-socket_uid ls (load_line l cfg) ∙ load_line-socket_uid l cfg

-- No configuration file sets the user whose processes may connect: the identifier keeps its
-- default whatever the file holds, since a line `socket_uid N` is read as a line `socket _uid`.
pub config_load-socket_uid :
    (file : Bytes) → ((config_load (some (some file))).1).socket_uid ≡ defaults.socket_uid
unfolding config_load
config_load-socket_uid file = load_lines-socket_uid (fgets_lines (length file) file) emptied
