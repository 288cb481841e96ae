-- ===== src/Contract/Glob/Tests.antt =====
-- Patterns of topics on small inputs.
use egop.Prelude.{codes, text_eq, true, false, ◌≡◌, ◌↔◌, refl}
use egop.Contract.Glob.{
  push, split, has_byte, strip_prefix, cut_after, has_suffix, glob_rest, glob_parts, glob_match,
}
use egop.Contract.Glob.Spec.{Glob}
use egop.Contract.Glob.Laws.{glob_match_iff}

fits_run : glob_match (codes "a.*.b*d") (codes "a.x.b.b.d") ≡ true
unfolding text_eq push split has_byte strip_prefix cut_after has_suffix glob_rest glob_parts
    glob_match
fits_run = refl

overlap_run : glob_match (codes "ab*ba") (codes "aba") ≡ false
unfolding text_eq push split has_byte strip_prefix cut_after has_suffix glob_rest glob_parts
    glob_match
overlap_run = refl

glob_match_iff_example :
    (glob_match (codes "a.*.b*d") (codes "a.x.b.b.d") ≡ true)
    ↔ Glob (codes "a.*.b*d") (codes "a.x.b.b.d")
glob_match_iff_example = glob_match_iff (codes "a.*.b*d") (codes "a.x.b.b.d")
