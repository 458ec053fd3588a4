-- ===== src/Xcall/Tests.antt =====
-- Runs of src/modules/xcall/xcall.c on small inputs.
use kalisko.Xcall.Branches.{result_of}
use kalisko.Base.{
  ℕ, ◌≡◌, refl, ◌==◌, if◌then◌else◌, none, some, [], ◌∷◌, Bytes, codes, bytes_eq, arith,
}
use kalisko.Base.Int.{pos}
use kalisko.Store.Value.{Store, Nodes, array, string, integer, empty, node}
use kalisko.Store.Value.Tables.{lookup}
use kalisko.Store.Path.{found, get_store_path, read_component, child, replace_child}
use kalisko.Xcall.{
  Functions, Called, lookup_function, normalized, function_name, invoke_xcall, Format,
}
use kalisko.Xcall.Invoke.{invoke_xcall_returns}

-- The function 1 answers that it is well, and the others do not answer.
abbrev run_ask : ℕ → Functions → Store ℕ → Called ℕ
run_ask p functions xcall = record {
  returned = if p == 1 then some (array (node (codes "well") (integer (pos 1)) empty)) else none;
  xcall = xcall;
  functions = functions;
}

abbrev registered : Functions
registered = (codes "ask", 1) ∷ []

abbrev asking : Bytes → Store ℕ
asking name = array (node (codes "xcall") (string name) (node (codes "x") (integer (pos 3)) empty))

abbrev plain : Format ℕ
plain = record {
  atof = λ s. 0;
  format_double = λ x. [];
  location = record { last_line = 1; last_column = 1 };
}

invoke_xcall_returns_example :
    (ms : Nodes ℕ) × ((result_of (invoke_xcall plain run_ask registered (asking (codes "ask")))
        ≡ some (array ms))
      × ((lookup (codes "well") ms
            ≡ lookup (codes "well") (node (codes "well") (integer (pos 1)) empty))
          × (get_store_path (array ms) (codes "xcall/function")
              ≡ found (some (string (codes "ask"))))))
unfolding normalized function_name lookup_function lookup bytes_eq read_component child
    replace_child
invoke_xcall_returns_example =
    invoke_xcall_returns plain run_ask registered (asking (codes "ask")) (codes "ask")
      (codes "well") (node (codes "well") (integer (pos 1)) empty) refl (ground arith) refl refl
      (ground arith)
