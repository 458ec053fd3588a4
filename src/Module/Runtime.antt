-- ===== src/Module/Runtime.antt =====
-- `addModuleRuntimeDependency` of src/module.c.
use kalisko.Base.{
  ◌≡◌, ◌≢◌, refl, sym, ◌∙◌, ap, ℕ, suc, ◌<◌, ◌+◌, Bytes, bytes_eq, bytes_eq_iff, Bool, true, false,
  ◌||◌, Option, none, some, ◌⊎◌, inl, inr, ◌↔◌, arith, Bool-cases, if◌then◌else◌,
}
use kalisko.Base.Table.{get, put, get-put, has-add_name, add_name}
use kalisko.Module.{Loader, Module, write, add_to_parent}
use kalisko.Module.Load.{dependencies_of, check_dependency, add_edge, add_module_runtime_dependency}
use kalisko.Module.Graph.{Edge, Reach, direct, over, Ranked, check_dependency-Reach, contradictory}
use mathlib.Core.Path.{subst}

bytes_eq-different : (a b : Bytes) → a ≢ b → bytes_eq a b ≡ false
bytes_eq-different a b d = ground (arith, bytes_eq_iff a b)

module _ {C S : Type 0} (l : Loader C S) where
  abbrev new_source : Bytes → Module → Module
  new_source target s = record s { dependencies = add_name target s.dependencies }

  abbrev new_target : Bytes → Module → Module
  new_target source t = record t { rdeps = add_name source t.rdeps; rc = t.rc + 1 }

  add_to_parent_present :
      (source target : Bytes) (s : Module)
      → get source l.modules ≡ some s
      → add_to_parent (some source) target l ≡ write source (new_source target s) l
  add_to_parent_present source target s hs = rw (hs, add_to_parent) refl

  add_edge_present :
      (source target : Bytes) (s t : Module)
      → bytes_eq source target ≡ false
      → get source l.modules ≡ some s
      → get target l.modules ≡ some t
      → add_edge source target l
        ≡ write target (new_target source t) (write source (new_source target s) l)
  unfolding add_edge
  add_edge_present source target s t d hs ht =
      let e : get target (put source (new_source target s) l.modules) ≡ some t =
        get-put source target (new_source target s) l.modules ∙ rw d ht in
      rw (add_to_parent_present source target s hs, add_edge)
        (rw (e, add_edge)
          (ap (write target (new_target source t)) (add_to_parent_present source target s hs)))

  add_edge-dependencies :
      (source target a : Bytes) (s t : Module)
      → bytes_eq source target ≡ false
      → get source l.modules ≡ some s
      → get target l.modules ≡ some t
      → dependencies_of (get a (add_edge source target l).modules) ≡ (
          if bytes_eq source a
          then add_name target (dependencies_of (get a l.modules))
          else dependencies_of (get a l.modules))
  add_edge-dependencies source target a s t d hs ht =
      rw (add_edge_present source target s t d hs ht) ground (
        arith,
        get-put source a (new_source target s) l.modules,
        get-put target a (new_target source t) (put source (new_source target s) l.modules),
        bytes_eq_iff source a,
        bytes_eq_iff target a,
        bytes_eq_iff source target,
        ap (λ x. get x l.modules),
      )

  Reach-trans : (a b c : Bytes) → Reach l a b → Reach l b c → Reach l a c
  Reach-trans a b c (direct e) r = over e r
  Reach-trans a b c (over {b = d} e q) r = over e (Reach-trans d b c q r)

  Reach-less : (rank : Bytes → ℕ) → Ranked l rank → (a b : Bytes) → Reach l a b → rank b < rank a
  Reach-less rank ranked a b (direct e) = ranked a b e
  Reach-less rank ranked a b (over {b = d} e q) =
      omega (arith, ranked a d e, Reach-less rank ranked d b q)

  -- Whether `a` is `source` or depends on it.
  abbrev up : Option Bool → Bool
  up none = false
  up (some b) = b

  abbrev is_up : (Bytes → ℕ) → Bytes → Bytes → Bool
  is_up rank source a = bytes_eq a source || up (check_dependency (suc (rank a)) l a source)

  is_up-Reach :
      (rank : Bytes → ℕ) (ranked : Ranked l rank) (source a : Bytes)
      → (is_up rank source a ≡ true) ↔ ((a ≡ source) ⊎ Reach l a source)
  is_up-Reach rank ranked source a =
      let (b, p, q) = check_dependency-Reach l rank ranked (suc (rank a)) a source (omega arith) in
      rw p (
        (λ h. elim (Bool-cases (bytes_eq a source)) [
          | inl e ↦ inl ((bytes_eq_iff a source).0 e)
          | inr e ↦ inr (q.0 (ground arith))
        ]),
        λ x. elim x [
          | inl e ↦ ground (arith, bytes_eq_iff a source)
          | inr r ↦ let t = q.1 r in ground arith
        ],
      )

  is_up-Edge :
      (rank : Bytes → ℕ) (ranked : Ranked l rank) (source a b : Bytes)
      → Edge l a b
      → is_up rank source b ≡ true
      → is_up rank source a ≡ true
  is_up-Edge rank ranked source a b e h = (is_up-Reach rank ranked source a).1 (
      inr (elim ((is_up-Reach rank ranked source b).0 h) [
        | inl q ↦ direct (subst (Edge l a) q e)
        | inr r ↦ over e r
      ]))

  -- The numbering after an edge from `source` to `target` is added.
  abbrev lifted : (Bytes → ℕ) → Bytes → Bytes → Bytes → ℕ
  lifted rank source target a = rank a + (if is_up rank source a then rank target + 1 else 0)

  lifted-Edge :
      (rank : Bytes → ℕ) (ranked : Ranked l rank) (source target a b : Bytes)
      → Edge l a b
      → lifted rank source target b < lifted rank source target a
  lifted-Edge rank ranked source target a b e =
      let less = ranked a b e in let climbs = is_up-Edge rank ranked source a b e in ground arith

  lifted-new :
      (rank : Bytes → ℕ) (ranked : Ranked l rank) (source target : Bytes)
      → source ≢ target
      → ¬ Reach l target source
      → lifted rank source target target < lifted rank source target source
  lifted-new rank ranked source target d n =
      let top = (is_up-Reach rank ranked source source).1 (inl refl) in
      let bottom = (is_up-Reach rank ranked source target).0 in
      elim (Bool-cases (is_up rank source target)) [
        | inl e ↦ elim (bottom e) [ inl q ↦ absurd (d (sym q)) | inr r ↦ absurd (n r) ]
        | inr e ↦ rw (e, top) omega arith
      ]

  -- The edges after the change are those before it and the new one.
  add_edge-Edge :
      (source target : Bytes) (s t : Module)
      → bytes_eq source target ≡ false
      → get source l.modules ≡ some s
      → get target l.modules ≡ some t
      → (a b : Bytes)
      → Edge (add_edge source target l) a b ↔ (Edge l a b ⊎ ((a ≡ source) × (b ≡ target)))
  add_edge-Edge source target s t d hs ht a b =
      rw (add_edge-dependencies source target a s t d hs ht) (
        (λ h. ground (
          arith,
          has-add_name target b (dependencies_of (get a l.modules)),
          bytes_eq_iff source a,
          bytes_eq_iff target b,
        )),
        λ h. ground (
          arith,
          has-add_name target b (dependencies_of (get a l.modules)),
          bytes_eq_iff source a,
          bytes_eq_iff target b,
        ),
      )

  add_answer :
      (n : ℕ) (source target : Bytes) (s t : Module) (forward back : Bool)
      → get source l.modules ≡ some s
      → get target l.modules ≡ some t
      → check_dependency n l source target ≡ some forward
      → check_dependency n l target source ≡ some back
      → add_module_runtime_dependency n source target l ≡ (
          if forward
          then some (l, true)
          else if back
          then some (l, false)
          else some (add_edge source target l, true))
  unfolding add_module_runtime_dependency
  add_answer n source target s t forward back hs ht f b = ground arith

  acyclic : (rank : Bytes → ℕ) → Ranked l rank → (a b : Bytes) → Reach l a b → ¬ Reach l b a
  acyclic rank ranked a b r q =
      omega (arith, Reach-less rank ranked a b r, Reach-less rank ranked b a q)

  -- Between two different loaded modules, when the dependencies have no cycle (a numbering falls
  -- along them) and the fuel is above the numbers of both, addModuleRuntimeDependency ends; it
  -- refuses and changes nothing exactly when the target reaches the source, and else the source
  -- reaches the target afterwards and the dependencies still have no cycle.
  pub add_module_runtime_dependency_lem :
      (rank : Bytes → ℕ) (n : ℕ) (source target : Bytes) (s t : Module)
      → Ranked l rank
      → source ≢ target
      → get source l.modules ≡ some s
      → get target l.modules ≡ some t
      → rank source < n
      → rank target < n
      → (Reach l target source
          × (add_module_runtime_dependency n source target l ≡ some (l, false)))
        ⊎ ((¬ Reach l target source)
            × ((l' : Loader C S) × (add_module_runtime_dependency n source target l
                  ≡ some (l', true))
                × Reach l' source target
                × ((rank' : Bytes → ℕ) × Ranked l' rank')))
  add_module_runtime_dependency_lem rank n source target s t ranked d hs ht a b =
      let (f, pf, qf) = check_dependency-Reach l rank ranked n source target a in
      let (k, pk, qk) = check_dependency-Reach l rank ranked n target source b in
      let answer = add_answer n source target s t f k hs ht pf pk in
      elim (Bool-cases f) [
        | inl e ↦ inr (
          acyclic rank ranked source target (qf.0 e),
          (l, answer ∙ rw e refl, qf.0 e, (rank, ranked)),
        )
        | inr e ↦ elim (Bool-cases k) [
          | inl e' ↦ inl (qk.0 e', answer ∙ rw (e, e') refl)
          | inr e' ↦
              let apart : ¬ Reach l target source = λ r. contradictory k (qk.1 r) e' in
              let edges =
                add_edge-Edge source target s t (bytes_eq-different source target d) hs ht in
              inr (
                apart,
                (
                  add_edge source target l,
                  answer ∙ rw (e, e') refl,
                  direct ((edges source target).1 (inr (refl, refl))),
                  (
                    lifted rank source target,
                    λ x y h. elim ((edges x y).0 h) [
                      | inl o ↦ lifted-Edge rank ranked source target x y o
                      | inr (p, q) ↦ rw (p, q) (lifted-new rank ranked source target d apart)
                    ],
                  ),
                ),
              )
        ]
      ]
