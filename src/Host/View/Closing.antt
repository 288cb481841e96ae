-- ===== src/Host/View/Closing.antt =====
-- host/host.go: the loops of Close and the plugins that they leave.
use egop.Prelude.{
  Text, text_eq_refl, contains, any, lookup, has, ltb, insert_by, sort_by, In, here, there,
  In-cons_cases, lookup-In, Map, ℕ, zero, suc, Bool-cases, Option-cases, true, List, [], ◌∷◌, ◌++◌,
  Option, none, some, ◌≡◌, refl, ap, inl, inr, arith, length,
}
use egop.Host.State.{Options, Plugin, Host, HostError}
use egop.Host.Hooks.{seq_of}
use egop.Host.Remove.{
  slot_of, broken_by, drop_plugin, note_version, sweep, finish_remove, cascade, remove,
}
use egop.Host.Remove.Results.{remove_exact, remove_total}
use egop.Host.View.{
  CloseError, close_disposer, removal_error, close_rows, reverse_onto, close_order, finish_close,
  close_host,
}

contains-append :
    (k : Text) (xs ys : List Text) → contains xs k ≡ true → contains (xs ++ ys) k ≡ true
unfolding contains any
contains-append k [] ys e = cc
contains-append k (x ∷ xs) ys e = ground (arith, contains-append k xs ys)

-- The loop forgets no victim.
sweep-victims :
    (o : Options) (fuel : ℕ) (queue victims : List Text) (versions : Map Text) (h : Host)
    (victims' : List Text) (versions' : Map Text) (h' : Host) (k : Text)
    → contains victims k ≡ true
    → sweep fuel o queue victims versions h ≡ some (victims', versions', h')
    → contains victims' k ≡ true
unfolding sweep
sweep-victims o zero queue victims versions h victims' versions' h' k e ran = cc
sweep-victims o (suc fuel) [] victims versions h victims' versions' h' k e ran =
    let same : victims ≡ victims' = cc in rw (← same) e
sweep-victims o (suc fuel) (id ∷ queue) victims versions h victims' versions' h' k e ran =
    sweep-victims o fuel
      (queue ++ broken_by o (drop_plugin id h).metas id (slot_of h.metas id) victims)
      (victims ++ broken_by o (drop_plugin id h).metas id (slot_of h.metas id) victims)
      (note_version id (lookup id h.metas) versions) (drop_plugin id h) victims' versions' h' k
      (contains-append k victims
        (broken_by o (drop_plugin id h).metas id (slot_of h.metas id) victims) e)
      ran

cascade-victims :
    (o : Options) (h h' : Host) (id : Text) (victims : List Text) (err : Option HostError)
    → cascade o h id ≡ some (h', victims, err)
    → contains victims id ≡ true
unfolding cascade finish_remove contains any
cascade-victims o h h' id victims err ran =
    elim (Option-cases (sweep (suc (suc (length h.metas))) o (id ∷ []) (id ∷ []) [] h)) [
      | inl e ↦ let bad : none ≡ some (h', victims, err) = rw (e, cascade) at ran in cc
      | inr ((victims', versions, swept), e) ↦
          let done : some (finish_remove (victims', versions, swept)) ≡ some (h', victims, err) =
            rw (e, cascade) at ran in
          let same : victims' ≡ victims = ground arith in
          rw (← same) (
            sweep-victims o (suc (suc (length h.metas))) (id ∷ []) (id ∷ []) [] h victims' versions
              swept id (ground (arith, text_eq_refl id)) e)
    ]

-- A removal with a cascade leaves the plugin out, and brings no other back.
remove_gone :
    (o : Options) (h h' : Host) (id : Text) (victims : List Text) (err : Option HostError)
    → remove o h id true ≡ some (h', victims, err)
    → lookup id h'.plugins ≡ none
unfolding remove
remove_gone o h h' id victims err ran = elim (Bool-cases (has id h.plugins)) [
  | inl e ↦
      let cascaded : cascade o h id ≡ some (h', victims, err) = rw (e, remove) at ran in
      let (_, left, _) = remove_exact o h h' id true victims err ran id in
      ground (arith, left, cascade-victims o h h' id victims err cascaded)
  | inr e ↦ let same : h ≡ h' = ground arith in rw (← same) (ground arith)
]

remove_stays :
    (o : Options) (h h' : Host) (id : Text) (victims : List Text) (err : Option HostError)
    (k : Text)
    → remove o h id true ≡ some (h', victims, err)
    → lookup k h.plugins ≡ none
    → lookup k h'.plugins ≡ none
remove_stays o h h' id victims err k ran e =
    let (_, left, _) = remove_exact o h h' id true victims err ran k in ground (arith, left)

-- What closing a row of plugins does to a host.
record Closed (o : Options) (rows : List (Text × Plugin)) (s s' : Host × List CloseError)
    : Type 0 where
  ran : close_rows o rows s ≡ some s'
  gone : (k : Text) (p : Plugin) → In (k, p) rows → lookup k (s'.0).plugins ≡ none
  stays : (k : Text) → lookup k (s.0).plugins ≡ none → lookup k (s'.0).plugins ≡ none

rows-Closed :
    (o : Options) (rows : List (Text × Plugin)) (s : Host × List CloseError)
    → (s' : Host × List CloseError) × Closed o rows s s'
unfolding close_rows
rows-Closed o [] s = (s, record { ran = refl; gone = λ k p i. elim i [ ]; stays = λ k e. e })
rows-Closed o ((id, p) ∷ rows) (h, errs) =
    let ((h', victims, e), once) = remove_total o h id true in
    let (s', c) = rows-Closed o rows (h', errs ++ (close_disposer id p ++ removal_error e)) in
    (
      s',
      record {
        ran = rw (once, close_rows) c.ran;
        gone = λ k q i. elim (In-cons_cases i) [
          | inl same ↦
              let key : k ≡ id = ap (λ r. r.0) same in
              rw key (c.stays id (remove_gone o h h' id victims e once))
          | inr later ↦ c.gone k q later
        ];
        stays = λ k absent. c.stays k (remove_stays o h h' id victims e k once absent);
      },
    )

module _ {ℓ} {A : Type ℓ} where
  In-insert_by :
      (key : A → ℕ) (a : A) (xs : List A) {x : A} → In x (a ∷ xs) → In x (insert_by key a xs)
  unfolding insert_by
  In-insert_by key a [] i = i
  In-insert_by key a (y ∷ xs) i = elim (Bool-cases (ltb (key a) (key y))) [
    | inl e ↦ rw e i
    | inr e ↦ elim (In-cons_cases i) [
      | inl same ↦ rw e (there (In-insert_by key a xs (rw same here)))
      | inr old ↦ elim (In-cons_cases old) [
        | inl same ↦ rw (e, same) here
        | inr later ↦ rw e (there (In-insert_by key a xs (there later)))
      ]
    ]
  ]

  In-sort_by : (key : A → ℕ) (xs : List A) {x : A} → In x xs → In x (sort_by key xs)
  unfolding sort_by
  In-sort_by key [] i = i
  In-sort_by key (y ∷ xs) i = elim (In-cons_cases i) [
    | inl same ↦ In-insert_by key y (sort_by key xs) (rw same here)
    | inr later ↦ In-insert_by key y (sort_by key xs) (there (In-sort_by key xs later))
  ]

  In-onto_right : (xs ys : List A) {x : A} → In x ys → In x (reverse_onto xs ys)
  unfolding reverse_onto
  In-onto_right [] ys i = i
  In-onto_right (y ∷ xs) ys i = In-onto_right xs (y ∷ ys) (there i)

  In-onto_left : (xs ys : List A) {x : A} → In x xs → In x (reverse_onto xs ys)
  unfolding reverse_onto
  In-onto_left [] ys i = elim i [ ]
  In-onto_left (y ∷ xs) ys i = elim (In-cons_cases i) [
    | inl same ↦ rw same (In-onto_right xs (y ∷ ys) here)
    | inr later ↦ In-onto_left xs (y ∷ ys) later
  ]

-- Close returns on every host, and afterwards no plugin is registered and none waits.
pub close_host_empties :
    (o : Options) (h : Host)
    → (r : Host × List CloseError) × (close_host o h ≡ some r)
      × ((k : Text) → lookup k (r.0).plugins ≡ none)
      × ((r.0).pending ≡ [])
      × ((r.0).pending_plugins ≡ [])
unfolding close_host close_order finish_close
close_host_empties o h =
    let ((h', errs), c) = rows-Closed o (close_order h) (h, []) in
    (
      finish_close (h', errs),
      rw (c.ran, close_host) refl,
      (λ k. elim (Option-cases (lookup k h.plugins)) [
        | inl absent ↦ c.stays k absent
        | inr (p, found) ↦ c.gone k p (
            In-onto_left (sort_by (λ (e : Text × Plugin). seq_of h.seq e.0) h.plugins) [] (
              In-sort_by (λ (e : Text × Plugin). seq_of h.seq e.0) h.plugins
                (lookup-In k h.plugins p found)))
      ]),
      refl,
      refl,
    )
