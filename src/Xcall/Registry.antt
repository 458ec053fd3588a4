-- ===== src/Xcall/Registry.antt =====
-- Functions are found under the names that they were added with.
use kalisko.Base.{
  ℕ, ◌≡◌, ◌≢◌, true, false, ◌||◌, not, if◌then◌else◌, Bytes, bytes_eq, bytes_eq_iff, arith,
}
use kalisko.Base.Table.{put, drop, get-put, get-drop}
use kalisko.Xcall.{
  Functions, lookup_function, add_xcall_function, del_xcall_function, exists_xcall_function,
}

lookup_function-put :
    (k j : Bytes) (p : ℕ) (t : Functions)
    → lookup_function j (put k p t) ≡ (if bytes_eq k j then p else lookup_function j t)
unfolding lookup_function
lookup_function-put k j p t = ground (arith, get-put k j p t)

lookup_function-drop :
    (k j : Bytes) (t : Functions)
    → lookup_function j (drop k t) ≡ (if bytes_eq k j then 0 else lookup_function j t)
unfolding lookup_function
lookup_function-drop k j t = ground (arith, get-drop k j t)

-- Adding a function that is not NULL succeeds exactly when there is none of that name; then the
-- name stands for it, and else for the function that it stood for; the functions of other names
-- exist as before.
pub exists_xcall_function-add_xcall_function :
    (name j : Bytes) (func : ℕ) (functions : Functions)
    → func ≢ 0
    → (exists_xcall_function j (add_xcall_function name func functions).0
        ≡ bytes_eq name j || exists_xcall_function j functions)
      × (((add_xcall_function name func functions).1 ≡ not (exists_xcall_function name functions))
          × (lookup_function name (add_xcall_function name func functions).0 ≡ (
              if exists_xcall_function name functions
              then lookup_function name functions
              else func)))
unfolding exists_xcall_function add_xcall_function
exists_xcall_function-add_xcall_function name j func functions h = ground (
  arith,
  lookup_function-put name j func functions,
  lookup_function-put name name func functions,
  bytes_eq_iff name j,
  bytes_eq_iff name name,
)

-- If there is no function of a name, adding one that is not NULL and deleting it both succeed,
-- and leave every name with the function that it had.
pub del_xcall_function-add_xcall_function :
    (name j : Bytes) (func : ℕ) (functions : Functions)
    → func ≢ 0
    → exists_xcall_function name functions ≡ false
    → let added = add_xcall_function name func functions in
      let deleted = del_xcall_function name added.0 in
      (added.1 ≡ true)
      × ((deleted.1 ≡ true) × (lookup_function j deleted.0 ≡ lookup_function j functions))
unfolding exists_xcall_function add_xcall_function del_xcall_function
del_xcall_function-add_xcall_function name j func functions h e = ground (
  arith,
  lookup_function-put name j func functions,
  lookup_function-put name name func functions,
  lookup_function-drop name j (put name func functions),
  bytes_eq_iff name j,
  bytes_eq_iff name name,
)
