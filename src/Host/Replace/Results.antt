-- ===== src/Host/Replace/Results.antt =====
-- host/register.go: what Replace leaves in the table of plugins.
use egop.Prelude.{
  text_eq, text_eq_sound, sym, ◌∙◌, Text, text_eq_refl, text_eq_iff, lookup, lookup-insert, insert,
  has, length, Bool-cases, Option-cases, true, false, Option, none, some, ◌≢◌, ◌≡◌, refl, ◌⊎◌, inl,
  inr, arith,
}
use egop.Host.State.{Options, Plugin, Host, HostError, emit}
use egop.Host.State
use egop.Host.Register.{retry_pending}
use egop.Host.Check.{validate_contract}
use egop.Host.Register.Waiting.{IsQueued, Fits, retry_pending-Returns}
use egop.Host.Register.Results.{again-Grows}
use egop.Host.Replace.{swap, replaced, replace}

replaced-plugins :
    (p : Plugin) (h : Host) → (replaced p p.meta h).plugins ≡ insert p.meta.id p h.plugins
unfolding replaced swap emit
replaced-plugins p h = refl

replaced-Fits : (p : Plugin) (h : Host) → IsQueued h → Fits (length h.pending) (replaced p p.meta h)
unfolding replaced swap emit
replaced-Fits p h q = record { queued = q; short = omega arith }

others_kept :
    (p : Plugin) (h : Host) (k : Text) (q : Plugin)
    → p.meta.id ≢ k
    → lookup k h.plugins ≡ some q
    → lookup k (replaced p p.meta h).plugins ≡ some q
others_kept p h k q other found =
    rw (replaced-plugins p h)
      (ground (arith, lookup-insert p.meta.id k p h.plugins, text_eq_iff p.meta.id k))

others_after :
    (o : Options) (p : Plugin) (h h' : Host)
    → retry_pending o (replaced p p.meta h) ≡ some h'
    → (k : Text)
    → (k ≡ p.meta.id) ⊎ (lookup k h.plugins ≡ none) ⊎ (lookup k h'.plugins ≡ lookup k h.plugins)
others_after o p h h' ran k = elim (Bool-cases (text_eq p.meta.id k)) [
  | inl same ↦ inl (sym (text_eq_sound p.meta.id k same))
  | inr apart ↦ elim (Option-cases (lookup k h.plugins)) [
    | inl absent ↦ inr (inl absent)
    | inr (q, found) ↦
        let other : p.meta.id ≢ k = λ e. let again = (text_eq_iff p.meta.id k).1 e in cc in
        inr (
          inr (
            again-Grows o (replaced p p.meta h) h' ran k q (others_kept p h k q other found)
            ∙ sym found))
  ]
]

-- Replace returns for every plugin and host whose queue of waiting plugins is in order. It succeeds
-- exactly if the id is registered and the new manifest passes the contract check, and then the new
-- implementation stands under the id; if it fails the host is what it was. Every other plugin that was
-- registered stays in either case.
pub replace_decides :
    (o : Options) (p : Plugin) (h : Host)
    → IsQueued h
    → (h' : Host) × (err : Option HostError) × (replace o p h ≡ some (h', err))
      × ((k : Text)
          → (k ≡ p.meta.id)
            ⊎ (lookup k h.plugins ≡ none)
            ⊎ (lookup k h'.plugins ≡ lookup k h.plugins))
      × (((err ≡ none)
            × (has p.meta.id h.plugins ≡ true)
            × (validate_contract o h.plugins h.metas p.meta ≡ none)
            × (lookup p.meta.id h'.plugins ≡ some p))
          ⊎ ((err ≢ none)
              × (h' ≡ h)
              × ((has p.meta.id h.plugins ≡ false)
                  ⊎ (validate_contract o h.plugins h.metas p.meta ≢ none))))
unfolding replace
replace_decides o p h queued = elim (Bool-cases (has p.meta.id h.plugins)) [
  | inr absent ↦ (
    h,
    some (State.not_registered p.meta.id),
    rw (absent, replace) refl,
    (λ k. inr (inr refl)),
    inr ((λ e. cc), refl, inl absent),
  )
  | inl there_too ↦ elim (Option-cases (validate_contract o h.plugins h.metas p.meta)) [
    | inr (e, refused) ↦ (
      h,
      some e,
      rw (there_too, refused, replace) refl,
      (λ k. inr (inr refl)),
      inr ((λ bad. cc), refl, inr (λ valid. cc)),
    )
    | inl valid ↦
        let (h', ran, fits) =
          retry_pending-Returns (length h.pending) o (replaced p p.meta h)
            (replaced-Fits p h queued) in
        let new : lookup p.meta.id (replaced p p.meta h).plugins ≡ some p =
          rw
            (
              replaced-plugins p h,
              lookup-insert p.meta.id p.meta.id p h.plugins,
              text_eq_refl p.meta.id,
            )
            refl in
        (
          h',
          none,
          rw (there_too, valid, ran, replace) refl,
          others_after o p h h' ran,
          inl (refl, there_too, valid, again-Grows o (replaced p p.meta h) h' ran p.meta.id p new),
        )
  ]
]
