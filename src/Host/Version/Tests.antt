-- ===== src/Host/Version/Tests.antt =====
-- Versions of which one has more segments.
use egop.Prelude.{Text, codes, length, true, ◌≡◌, ◌↔◌, ◌⊎◌, refl}
use egop.Contract.Glob.{split}
use egop.Host.Version.{
  pos, segment, atoi, trim_space, trim_left, is_space, parse_digits, parse_uint, positive,
  version_at_least,
}
use egop.Host.Version.Order.{Stands, Agree, Newer, version_at_least_iff}

-- A segment that is no number counts as 0.
words_are_nought : segment (codes "rc1") ≡ pos 0
unfolding segment atoi trim_space trim_left is_space parse_digits parse_uint positive
words_are_nought = refl

version_at_least_iff_example :
    ((s : Text) → Stands s (segment s))
    × ((version_at_least (codes "1.10") (codes "1.9.2") ≡ true) ↔ (
        Agree
          (split b'.' (codes "1.10"))
          (split b'.' (codes "1.9.2"))
          (length (split b'.' (codes "1.9.2")))
        ⊎ Newer (split b'.' (codes "1.10")) (split b'.' (codes "1.9.2"))))
version_at_least_iff_example = version_at_least_iff (codes "1.10") (codes "1.9.2") refl
