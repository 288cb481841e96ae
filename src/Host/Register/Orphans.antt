-- ===== src/Host/Register/Orphans.antt =====
-- host/register.go: the function table after a Register that fails on a repeated function name.
use egop.Prelude.{
  Text, text_eq_refl, is_empty, lookup, lookup-insert, has, Map, false, List, ◌∷◌, Option, none,
  some, ◌≡◌, arith,
}
use egop.Contract.Meta.{Meta, FuncSpec}
use egop.Host.State.{Options, Plugin, Reply, Host, HostError}
use egop.Host.State
use egop.Host.Check.{validate_contract}
use egop.Host.Register.{
  fn_key, add_functions, register_functions, commit, register_locked, announced, register_one,
  finish_register, register_with, register, remove_pending,
}

remove_pending_keeps :
    (id : Text) (h : Host)
    → ((remove_pending id h).plugins ≡ h.plugins)
      × ((remove_pending id h).metas ≡ h.metas)
      × ((remove_pending id h).fns ≡ h.fns)
unfolding remove_pending
remove_pending_keeps id h = ground arith

add_functions_repeated :
    (id : Text) (call : Text → Text → Reply) (f g : FuncSpec) (rest : List FuncSpec)
    (fns : Map State.FnEntry)
    → g.name ≡ f.name
    → has (fn_key id f.name) fns ≡ false
    → ((add_functions id call (f ∷ g ∷ rest) fns).1 ≡ some (State.function_conflict id g.name))
      × (lookup (fn_key id f.name) (add_functions id call (f ∷ g ∷ rest) fns).0
          ≡ some (record { plugin_id = id; spec = f; provider = call }))
unfolding add_functions
add_functions_repeated id call f g rest fns same new =
    let entry : State.FnEntry = record { plugin_id = id; spec = f; provider = call } in
    let found = lookup-insert (fn_key id f.name) (fn_key id f.name) entry fns in
    ground (arith, found, text_eq_refl (fn_key id f.name))

commit_failed :
    (p : Plugin) (m : Meta) (h : Host) (r : Map State.FnEntry × Option HostError) (e : HostError)
    → r.1 ≡ some e
    → commit p m h r ≡ (record h { fns = r.0 }, some e)
unfolding commit
commit_failed p m h (fns, some e') e failed = let same : e' ≡ e = cc in rw same
commit_failed p m h (fns, none) e failed = cc

register_functions_of :
    (p : Plugin) (call : Text → Text → Reply) (fns : Map State.FnEntry)
    → p.call_func ≡ some call
    → register_functions p p.meta fns ≡ add_functions p.meta.id call p.meta.provides.functions fns
unfolding register_functions
register_functions_of p call fns provider = rw (provider, register_functions)

-- Register ends with the failure of registerLocked, and with what it left.
register_failed :
    (o : Options) (p : Plugin) (h h₁ : Host) (e : HostError)
    → is_empty p.meta.id ≡ false
    → register_locked o p p.meta h ≡ (h₁, some e)
    → register o p h ≡ some (h₁, some e)
unfolding register register_with register_one finish_register announced
register_failed o p h h₁ e named ran = rw (named, ran)

-- Register of a plugin that declares one function name twice in a row, and is otherwise accepted,
-- fails and leaves the plugin unregistered, but the first of the two functions stays callable under
-- the plugin's id.
pub register_orphan :
    (o : Options) (p : Plugin) (h : Host) (call : Text → Text → Reply) (f g : FuncSpec)
    (rest : List FuncSpec)
    → is_empty p.meta.id ≡ false
    → has p.meta.id h.plugins ≡ false
    → validate_contract o h.plugins h.metas p.meta ≡ none
    → p.call_func ≡ some call
    → p.meta.provides.functions ≡ f ∷ g ∷ rest
    → g.name ≡ f.name
    → has (fn_key p.meta.id f.name) h.fns ≡ false
    → (h' : Host) × (register o p h ≡ some (h', some (State.function_conflict p.meta.id g.name)))
      × (has p.meta.id h'.plugins ≡ false)
      × (lookup (fn_key p.meta.id f.name) h'.fns
          ≡ some (record { plugin_id = p.meta.id; spec = f; provider = call }))
unfolding register_locked
register_orphan o p h call f g rest named absent valid provider functions same new =
    let h₁ = remove_pending p.meta.id h in
    let (plugins, metas, fns) = remove_pending_keeps p.meta.id h in
    let new₁ : has (fn_key p.meta.id f.name) h₁.fns ≡ false = rw fns new in
    let valid₁ : validate_contract o h₁.plugins h₁.metas p.meta ≡ none =
      rw (plugins, metas) valid in
    let (conflict, kept) = add_functions_repeated p.meta.id call f g rest h₁.fns same new₁ in
    let table : register_functions p p.meta h₁.fns
        ≡ add_functions p.meta.id call (f ∷ g ∷ rest) h₁.fns =
      rw (register_functions_of p call h₁.fns provider, functions) in
    let done : commit p p.meta h₁ (register_functions p p.meta h₁.fns) ≡ (
      record h₁ { fns = (add_functions p.meta.id call (f ∷ g ∷ rest) h₁.fns).0 },
      some (State.function_conflict p.meta.id g.name),
    ) =
      rw table (commit_failed p p.meta h₁ _ _ conflict) in
    (
      record h₁ { fns = (add_functions p.meta.id call (f ∷ g ∷ rest) h₁.fns).0 },
      register_failed o p h _ _ named (rw (absent, valid₁, register_locked) done),
      rw plugins absent,
      kept,
    )
