-- ===== src/Xcall/Invoke.antt =====
-- What `invokeXCall` returns, whether it fails or not.
use kalisko.Base.{
  ℕ, ◌≡◌, ◌≢◌, refl, sym, ◌∙◌, ap, Option, none, some, Bytes, codes, arith, bytes_eq, ◌⊎◌,
  bytes_eq_iff,
}
use kalisko.Store.Value.{Store, Nodes, array, string, empty, node}
use kalisko.Store.Value.Tables.{lookup, insert}
use kalisko.Store.Clone.{clone_store}
use kalisko.Store.Merge.{merged_value, lookup-merge_store}
use kalisko.Store.Path.{found, get_store_path, read_component, child, get_loop, Found}
use kalisko.Xcall.{
  Functions, Called, lookup_function, call_params, normalized, function_name, invoke_xcall,
  not_found, invalid, unreadable, Format,
}
use kalisko.Xcall.Branches.{about, entries, called, known, finish_returned, result_of}

module _ {F : Type 0} where
  -- The message and the parameters of a call in what is returned.
  abbrev pub Reports : Store F → Bytes → Option (Store F) → Type 0
  Reports xcall m none = ⊥
  Reports xcall m (some s) =
      (get_store_path s (codes "xcall/error") ≡ found (some (string m)))
      × (get_store_path s (codes "xcall/params") ≡ found (some (call_params xcall)))

module _ {F : Type 0} (format : Format F) (run : ℕ → Functions → Store F → Called F) where
  -- Why a call fails, with the message.
  abbrev pub Fails : Functions → Store F → Bytes → Type 0
  Fails functions xcall m =
      let call = normalized xcall in
      ((function_name call ≡ none) × (m ≡ unreadable))
      ⊎ ((name : Bytes) × ((function_name call ≡ some name)
            × (((lookup_function name functions ≡ 0) × (m ≡ not_found name))
                ⊎ ((lookup_function name functions ≢ 0)
                    × (((called run functions call name).returned ≡ none) × (m ≡ invalid name))))))

  abbrev function_in : Option (Store F) → Found F
  function_in none = found none
  function_in (some value) = get_loop 14 value (codes "function")

  two_steps :
      (ms : Nodes F)
      → get_store_path (array ms) (codes "xcall/function") ≡ function_in (lookup (codes "xcall") ms)
  unfolding get_store_path read_component child
  two_steps ms = refl

  meta_of :
      (ms : Nodes F) (xcall : Store F) (name : Bytes)
      → lookup (codes "xcall") ms ≡ some (clone_store (array (entries xcall name empty)))
      → get_store_path (array ms) (codes "xcall/function") ≡ found (some (string name))
  unfolding get_loop read_component child bytes_eq clone_store lookup insert
  meta_of ms xcall name l = two_steps ms ∙ ap function_in l

  meta_elsewhere :
      (m : Store F) (key : Bytes)
      → key ≢ codes "xcall"
      → lookup key (node (codes "xcall") m empty) ≡ none
  unfolding lookup
  meta_elsewhere m key k = ground (arith, bytes_eq_iff (codes "xcall") key)

  meta_here : (m : Store F) → lookup (codes "xcall") (node (codes "xcall") m empty) ≡ some m
  unfolding lookup bytes_eq
  meta_here m = refl

  -- If the name of a call is that of a registered function, which returns an array without the
  -- key "xcall", invokeXCall returns an array that has this answer under every other key, and the
  -- name of the function under xcall/function.
  pub invoke_xcall_returns :
      (functions : Functions) (xcall : Store F) (name key : Bytes) (answer : Nodes F)
      → function_name (normalized xcall) ≡ some name
      → lookup_function name functions ≢ 0
      → (called run functions (normalized xcall) name).returned ≡ some (array answer)
      → lookup (codes "xcall") answer ≡ none
      → key ≢ codes "xcall"
      → (ms : Nodes F) × ((result_of (invoke_xcall format run functions xcall) ≡ some (array ms))
          × ((lookup key ms ≡ lookup key answer)
              × (get_store_path (array ms) (codes "xcall/function") ≡ found (some (string name)))))
  unfolding lookup
  invoke_xcall_returns functions xcall name key answer e z r n k =
      let meta = array (entries xcall name empty) in
      let ns : Nodes F = node (codes "xcall") meta empty in
      let (ms, p, q) = lookup-merge_store answer ns key (refl, tt) in
      let (ms', p', q') = lookup-merge_store answer ns (codes "xcall") (refl, tt) in
      let there : lookup (codes "xcall") ms' ≡ some (clone_store meta) =
        q'
        ∙ ap (λ o. merged_value o (lookup (codes "xcall") ns)) n
        ∙ ap (λ o. merged_value none o) (meta_here meta) in
      (
        ms,
        (
          ap result_of (known format run functions xcall name e z)
              ∙ ap some (
                  finish_returned format run name (about (entries xcall name empty))
                    (called run functions (normalized xcall) name) r
                  ∙ ap (λ x. x.0) p),
          (
            q ∙ ap (λ o. merged_value (lookup key answer) o) (meta_elsewhere meta key k),
            ap (λ x. get_store_path x (codes "xcall/function"))
                  (sym (ap (λ x. x.0) p) ∙ ap (λ x. x.0) p')
                ∙ meta_of ms' xcall name there,
          ),
        ),
      )
