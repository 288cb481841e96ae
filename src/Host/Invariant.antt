-- ===== src/Host/Invariant.antt =====
-- The invariant of the registry over every history of registrations and removals.
use egop.Prelude.{Text, lookup, Bool, List, [], Option, none, some, ◌≡◌, refl, ◌⊎◌, inl, inr, arith}
use egop.Host.State.{Options, Plugin, Host, HostError}
use egop.Host.Register.{register, register_lazy, RegisterStatus, status_registered, with_status}
use egop.Host.Register.Closure.{IsRegistry, register-IsRegistry}
use egop.Host.Remove.{remove}
use egop.Host.Remove.Results.{remove_exact, remove-IsClosed}

-- Removal, cascading or not, refused or not, keeps the registry's invariant.
pub remove-IsRegistry :
    (o : Options) (h h' : Host) (id : Text) (cascading : Bool) (victims : List Text)
    (err : Option HostError)
    → IsRegistry o h
    → remove o h id cascading ≡ some (h', victims, err)
    → IsRegistry o h'
remove-IsRegistry o h h' id cascading victims err reg ran =
    let (closed, unique) =
      remove-IsClosed o h h' id cascading victims err reg.unique reg.closed ran in
    record {
      paired = λ k.
          let (metas, plugins, _) = remove_exact o h h' id cascading victims err ran k in
          ground (arith, metas, plugins, reg.paired k);
      unique = unique;
      closed = closed;
    }

with_status_run :
    (status status' : RegisterStatus) (ran : Option (Host × Option HostError)) (h' : Host)
    (err : Option HostError)
    → with_status status ran ≡ some (h', status', err)
    → ran ≡ some (h', err)
unfolding with_status
with_status_run status status' none h' err e = cc
with_status_run status status' (some r) h' err e = cc

-- A lazy registration registers, or leaves the two tables alone.
lazy_run :
    (o : Options) (p : Plugin) (h h' : Host) (status : RegisterStatus) (err : Option HostError)
    → register_lazy o p h ≡ some (h', status, err)
    → ((h'.plugins ≡ h.plugins) × (h'.metas ≡ h.metas)) ⊎ (register o p h ≡ some (h', err))
unfolding register_lazy
lazy_run o p h h' status err ran =
    ground (arith, with_status_run status_registered status (register o p h) h' err)

lazy-IsRegistry :
    (o : Options) (p : Plugin) (h h' : Host) (status : RegisterStatus) (err : Option HostError)
    → IsRegistry o h
    → register_lazy o p h ≡ some (h', status, err)
    → IsRegistry o h'
lazy-IsRegistry o p h h' status err reg ran = elim (lazy_run o p h h' status err ran) [
  | inl (plugins, metas) ↦ record {
    paired = rw (plugins, metas) reg.paired;
    unique = rw metas reg.unique;
    closed = rw metas reg.closed;
  }
  | inr done ↦ register-IsRegistry o p h h' err reg done
]

abbrev pub empty : Host
empty = record {
  plugins = [];
  metas = [];
  fns = [];
  applied = [];
  seq = [];
  next_seq = 0;
  effects = [];
  pending = [];
  pending_plugins = [];
  hook_decls = [];
  trace = [];
}

-- The hosts that registrations and removals lead to from the one that New makes.
pub data Reach (o : Options) : Host → Type 0 where
  start : Reach o empty
  registers :
      {h h' : Host} (p : Plugin) (err : Option HostError)
      → Reach o h
      → register o p h ≡ some (h', err)
      → Reach o h'
  registers_lazily :
      {h h' : Host} (p : Plugin) (status : RegisterStatus) (err : Option HostError)
      → Reach o h
      → register_lazy o p h ≡ some (h', status, err)
      → Reach o h'
  removes :
      {h h' : Host} (id : Text) (cascading : Bool) (victims : List Text) (err : Option HostError)
      → Reach o h
      → remove o h id cascading ≡ some (h', victims, err)
      → Reach o h'

-- Whatever was registered, registered lazily and removed, in any order: the tables of plugins and of
-- their metas have the same keys, no key twice, and the DepInit dependencies of every registered
-- plugin stand, those that name a plugin or a slot.
pub Reach-IsRegistry : (o : Options) {h : Host} → Reach o h → IsRegistry o h
unfolding lookup
Reach-IsRegistry o start = record {
  paired = λ k. refl;
  unique = λ k m i. elim i [ ];
  closed = λ k m i. elim i [ ];
}
Reach-IsRegistry o (registers {h} {h'} p err r ran) =
    register-IsRegistry o p h h' err (Reach-IsRegistry o r) ran
Reach-IsRegistry o (registers_lazily {h} {h'} p status err r ran) =
    lazy-IsRegistry o p h h' status err (Reach-IsRegistry o r) ran
Reach-IsRegistry o (removes {h} {h'} id cascading victims err r ran) =
    remove-IsRegistry o h h' id cascading victims err (Reach-IsRegistry o r) ran
