-- ===== src/File/Tests.antt =====
-- The packets of a transfer at concrete inputs.
use boardcommd.Base.{◌≡◌, refl, codes}
use boardcommd.File.{basename_only}

basename_runs : basename_only (codes "a/b/c.txt") ≡ codes "c.txt"
unfolding basename_only
basename_runs = refl
