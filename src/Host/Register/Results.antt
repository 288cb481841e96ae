-- ===== src/Host/Register/Results.antt =====
-- host/register.go: what Register promises of the two tables on success and on failure.
use egop.Prelude.{
  Text, text_eq_refl, text_eq_iff, lookup, lookup-insert, insert, has, length, ℕ, zero, suc, Map,
  Option-cases, false, List, [], ◌∷◌, Option, none, some, ◌≢◌, ◌≡◌, refl, ◌⊎◌, inl, inr, arith,
}
use egop.Host.State.{Options, Plugin, Host, HostError, emit}
use egop.Host.Register.{
  finish_register, register_with, split_pending, after_retry, register_one, register_ready, retry,
  register,
}
use egop.Host.Register.Closure.{Stepped, register_one-Stepped}

-- Every plugin of the first host is still there in the second.
abbrev pub Extends : Host → Host → Type 0
Extends h h' = (k : Text) (q : Plugin) → lookup k h.plugins ≡ some q → lookup k h'.plugins ≡ some q

insert-keeps {ℓ} :
    {V : Type ℓ} (id k : Text) (v w : V) (m : Map V)
    → has id m ≡ false
    → lookup k m ≡ some w
    → lookup k (insert id v m) ≡ some w
insert-keeps id k v w m new e = ground (arith, lookup-insert id k v m, text_eq_iff id k)

Stepped-Extends :
    (o : Options) (p : Plugin) (h : Host) (r : Host × Option HostError)
    → Stepped o p h r
    → Extends h r.0
Stepped-Extends o p h (h', some e) s k q found = rw s.plugins found
Stepped-Extends o p h (h', none) s k q found =
    rw s.plugins (insert-keeps p.meta.id k p q h.plugins s.absent found)

abbrev pub Grows : (Host → Option Host) → Type 0
Grows k = (h h' : Host) → k h ≡ some h' → Extends h h'

after_retry-plugins :
    (p : Plugin) (r : Host × Option HostError) → (after_retry p r).plugins ≡ r.0.plugins
unfolding after_retry emit
after_retry-plugins p (h, none) = refl
after_retry-plugins p (h, some e) = refl

module _ (o : Options) (k : Host → Option Host) (grows : Grows k) where
  finish_register-Extends :
      (r r' : Host × Option HostError) → finish_register k r ≡ some r' → Extends r.0 r'.0
  unfolding finish_register
  finish_register-Extends (h, some e) r' ran j q found =
      let same : h ≡ r'.0 = cc in rw (← same) found
  finish_register-Extends (h, none) r' ran j q found = elim (Option-cases (k h)) [
    | inl stuck ↦ let bad : none ≡ some r' = rw (stuck, finish_register) at ran in cc
    | inr (h', done) ↦
        let all_done : some (h', none) ≡ some r' = rw (done, finish_register) at ran in
        let last : h' ≡ r'.0 = cc in rw (← last) (grows h h' done j q found)
  ]

  register_with-Extends :
      (p : Plugin) (h : Host) (r : Host × Option HostError)
      → register_with k o p h ≡ some r
      → Extends h r.0
  unfolding register_with
  register_with-Extends p h r ran j q found =
      finish_register-Extends (register_one o p h) r ran j q
        (Stepped-Extends o p h (register_one o p h) (register_one-Stepped o p h) j q found)

  register_ready-Grows : (ps : List Plugin) → Grows (register_ready k o ps)
  unfolding register_ready
  register_ready-Grows [] h h' ran j q found = let same : h ≡ h' = cc in rw (← same) found
  register_ready-Grows (p ∷ ps) h h' ran j q found = elim (Option-cases (register_with k o p h)) [
    | inl stuck ↦ let bad : none ≡ some h' = rw (stuck, register_ready) at ran in cc
    | inr (r, done) ↦
        register_ready-Grows ps (after_retry p r) h' (rw (done, register_ready) at ran) j q
          (rw (after_retry-plugins p r) (register_with-Extends p h r done j q found))
  ]

retry-Grows : (fuel : ℕ) (o : Options) → Grows (retry fuel o)
unfolding retry
retry-Grows zero o h h' ran j q found = cc
retry-Grows (suc fuel) o h h' ran j q found =
    elim (Option-cases (split_pending o h h.pending h.pending_plugins)) [
      | inl stuck ↦ let bad : none ≡ some h' = rw (stuck, retry) at ran in cc
      | inr (r, split) ↦
          register_ready-Grows o (retry fuel o) (retry-Grows fuel o) r.0
            (record h { pending = r.1; pending_plugins = r.2 }) h' (rw (split, retry) at ran) j q
            found
    ]

pub again-Grows : (o : Options) → Grows (λ s. retry (suc (length s.pending)) o s)
again-Grows o s = retry-Grows (suc (length s.pending)) o s

-- The result of Register without its retry, and what becomes of it.
finished :
    (o : Options) (p : Plugin) (h h' : Host) (err : Option HostError) (r : Host × Option HostError)
    → Stepped o p h r
    → finish_register (λ s. retry (suc (length s.pending)) o s) r ≡ some (h', err)
    → ((err ≡ none) × (lookup p.meta.id h'.plugins ≡ some p))
      ⊎ ((err ≢ none) × (h'.plugins ≡ h.plugins) × (h'.metas ≡ h.metas))
unfolding finish_register
finished o p h h' err (h₁, some e) s ran =
    let same : h₁ ≡ h' = cc in inr (λ none_err. cc, rw (← same) s.plugins, rw (← same) s.metas)
finished o p h h' err (h₁, none) s ran =
    elim (Option-cases (retry (suc (length h₁.pending)) o h₁)) [
      | inl stuck ↦ let bad : none ≡ some (h', err) = rw (stuck, finish_register) at ran in cc
      | inr (h₂, done) ↦
          let all_done : some (h₂, none) ≡ some (h', err) = rw (done, finish_register) at ran in
          let entered : lookup p.meta.id h₁.plugins ≡ some p =
            rw (s.plugins, lookup-insert p.meta.id p.meta.id p h.plugins, text_eq_refl p.meta.id) in
          inl (
            cc,
            (let last : h₂ ≡ h' = cc in rw (← last) (again-Grows o h₁ h₂ done p.meta.id p entered)),
          )
    ]

-- Register takes no registered plugin away and replaces none, whether it succeeds or fails and
-- whatever waiting plugins it registers on the way.
pub register_keeps :
    (o : Options) (p : Plugin) (h h' : Host) (err : Option HostError) (k : Text) (q : Plugin)
    → lookup k h.plugins ≡ some q
    → register o p h ≡ some (h', err)
    → lookup k h'.plugins ≡ some q
unfolding register
register_keeps o p h h' err k q found ran =
    register_with-Extends o (λ s. retry (suc (length s.pending)) o s) (again-Grows o) p h (h', err)
      ran k q found

-- If Register succeeds, the plugin is registered; if it fails, the tables of plugins and of their
-- metas are what they were.
pub register_decides :
    (o : Options) (p : Plugin) (h h' : Host) (err : Option HostError)
    → register o p h ≡ some (h', err)
    → ((err ≡ none) × (lookup p.meta.id h'.plugins ≡ some p))
      ⊎ ((err ≢ none) × (h'.plugins ≡ h.plugins) × (h'.metas ≡ h.metas))
unfolding register register_with
register_decides o p h h' err ran =
    finished o p h h' err (register_one o p h) (register_one-Stepped o p h) ran
