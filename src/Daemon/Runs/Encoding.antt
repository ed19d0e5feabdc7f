-- ===== src/Daemon/Runs/Encoding.antt =====
-- Runs of the test for UTF-8 of Daemon/Utf8, and of the path of a program that is not UTF-8.
use traffic_cone.Common.{refl, ◌≡◌, true, false, some, none, [], ◌∷◌, err}
use traffic_cone.Daemon.Utf8.{is_utf8}
use traffic_cone.Daemon.Monitor.{Kernel, read_exe_path, exe_not_utf8}

accented : is_utf8 (0xc3 ∷ 0xa9 ∷ 0x2e ∷ []) ≡ true
unfolding is_utf8 traffic_cone.Daemon.Utf8.continues traffic_cone.Daemon.Utf8.lead
accented = refl

-- U+D800, a surrogate, is no character.
surrogate : is_utf8 (0xed ∷ 0xa0 ∷ 0x80 ∷ []) ≡ false
unfolding is_utf8 traffic_cone.Daemon.Utf8.continues traffic_cone.Daemon.Utf8.lead
surrogate = refl

cut_short : is_utf8 (0x61 ∷ 0xf0 ∷ 0x9f ∷ 0x98 ∷ []) ≡ false
unfolding is_utf8 traffic_cone.Daemon.Utf8.continues traffic_cone.Daemon.Utf8.lead
cut_short = refl

-- Every program of this moment is at the path `/` with a byte FF behind it.
abbrev strange : Kernel
strange = record {
  stat = λ pid. none;
  exe = λ pid. some (0x2f ∷ 0xff ∷ []);
  net = λ pid ipv6. none;
  read = λ path. none;
}

refused : read_exe_path strange 3 ≡ err (exe_not_utf8 3)
unfolding read_exe_path is_utf8 traffic_cone.Daemon.Utf8.continues traffic_cone.Daemon.Utf8.lead
refused = refl
