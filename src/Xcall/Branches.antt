-- ===== src/Xcall/Branches.antt =====
-- The branches of `invokeXCall`, one by one.
use kalisko.Base.{ℕ, ◌≡◌, ◌≢◌, refl, ◌∙◌, ap, Option, none, some, Bytes, codes, arith, bytes_eq}
use kalisko.Store.Value.{Store, Nodes, array, string, empty, node, create_store}
use kalisko.Store.Merge.{merge_store}
use kalisko.Store.Path.{set_store_path, read_component, child, replace_child}
use kalisko.Xcall.{
  Functions, Called, lookup_function, call_params, metadata, normalized, function_name, finish_call,
  invoke_function, invoke_xcall, not_found, invalid, unreadable, with_name, with_error,
  invoke_named, Format, Invoked, log_text, logged,
}

module _ {F : Type 0} where
  -- The metadata under `xcall`.
  abbrev pub about : Nodes F → Store F
  about ns = array (node (codes "xcall") (array ns) empty)

  pub metadata-params :
      (xcall : Store F) → metadata xcall ≡ about (node (codes "params") (call_params xcall) empty)
  unfolding metadata set_store_path create_store read_component child bytes_eq replace_child
  metadata-params xcall = refl

  abbrev pub entries : Store F → Bytes → Nodes F → Nodes F
  entries xcall name ns =
      node (codes "params") (call_params xcall) (node (codes "function") (string name) ns)

  abbrev pub message : Bytes → Nodes F
  message m = node (codes "error") (string m) empty

  pub metadata-with_error :
      (xcall : Store F) (m : Bytes)
      → with_error m (metadata xcall)
        ≡ about (node (codes "params") (call_params xcall) (message m))
  unfolding metadata set_store_path create_store read_component child bytes_eq replace_child
  metadata-with_error xcall m = refl

  pub metadata-with_name :
      (xcall : Store F) (name : Bytes)
      → with_name name (metadata xcall) ≡ about (entries xcall name empty)
  unfolding metadata set_store_path create_store read_component child bytes_eq replace_child
  metadata-with_name xcall name = refl

  pub named-with_error :
      (xcall : Store F) (name m : Bytes)
      → with_error m (with_name name (metadata xcall)) ≡ about (entries xcall name (message m))
  unfolding metadata set_store_path create_store read_component child bytes_eq replace_child
  named-with_error xcall name m = refl

  abbrev pub result_of : Option (Invoked F) → Option (Store F)
  result_of none = none
  result_of (some i) = some i.result

  module _ (run : ℕ → Functions → Store F → Called F) where
    abbrev pub called : Functions → Store F → Bytes → Called F
    called functions call name = run (lookup_function name functions) functions call

  module _ (format : Format F) (run : ℕ → Functions → Store F → Called F) where
    pub invoked :
        (functions : Functions) (xcall : Store F) {o : Option Bytes}
        → function_name (normalized xcall) ≡ o
        → invoke_xcall format run functions xcall
          ≡ invoke_named format run functions (metadata xcall) (normalized xcall) o
    unfolding invoke_xcall
    invoked functions xcall e =
        ap (invoke_named format run functions (metadata xcall) (normalized xcall)) e

    abbrev left_unnamed : Functions → Store F → Invoked F
    left_unnamed functions xcall = record {
      result = with_error unreadable (metadata xcall);
      xcall = normalized xcall;
      functions = functions;
    }

    pub unnamed :
        (functions : Functions) (xcall : Store F) (text : Bytes)
        → log_text format (normalized xcall) ≡ some text
        → function_name (normalized xcall) ≡ none
        → result_of (invoke_xcall format run functions xcall)
          ≡ some (about (node (codes "params") (call_params xcall) (message unreadable)))
    unfolding invoke_named
    unnamed functions xcall text l e =
        ap result_of (invoked functions xcall e)
        ∙ ap result_of (ap (λ o. logged o (left_unnamed functions xcall)) l)
        ∙ ap some (metadata-with_error xcall unreadable)

    abbrev left_unknown : Bytes → Store F → Functions → Store F → Invoked F
    left_unknown name metaret functions xcall = record {
      result = with_error (not_found name) metaret;
      xcall = xcall;
      functions = functions;
    }

    unknown_logged :
        (name : Bytes) (metaret xcall : Store F) (functions : Functions)
        → lookup_function name functions ≡ 0
        → invoke_function format run name metaret functions xcall
          ≡ logged (log_text format xcall) (left_unknown name metaret functions xcall)
    unfolding invoke_function
    unknown_logged name metaret xcall functions z = rw (z, invoke_function)

    pub unknown_function :
        (name text : Bytes) (metaret xcall : Store F) (functions : Functions)
        → log_text format xcall ≡ some text
        → lookup_function name functions ≡ 0
        → result_of (invoke_function format run name metaret functions xcall)
          ≡ some (with_error (not_found name) metaret)
    unknown_function name text metaret xcall functions l z = ap result_of (
        unknown_logged name metaret xcall functions z
        ∙ ap (λ o. logged o (left_unknown name metaret functions xcall)) l)

    pub known_function :
        (name : Bytes) (metaret xcall : Store F) (functions : Functions)
        → lookup_function name functions ≢ 0
        → invoke_function format run name metaret functions xcall
          ≡ some (finish_call name metaret (called run functions xcall name))
    unfolding invoke_function
    known_function name metaret xcall functions z = ground arith

    pub unknown :
        (functions : Functions) (xcall : Store F) (name text : Bytes)
        → log_text format (normalized xcall) ≡ some text
        → function_name (normalized xcall) ≡ some name
        → lookup_function name functions ≡ 0
        → result_of (invoke_xcall format run functions xcall)
          ≡ some (about (entries xcall name (message (not_found name))))
    unfolding invoke_named
    unknown functions xcall name text l e z =
        ap result_of (invoked functions xcall e)
        ∙ unknown_function name text (with_name name (metadata xcall)) (normalized xcall) functions
            l z
        ∙ ap some (named-with_error xcall name (not_found name))

    pub known :
        (functions : Functions) (xcall : Store F) (name : Bytes)
        → function_name (normalized xcall) ≡ some name
        → lookup_function name functions ≢ 0
        → invoke_xcall format run functions xcall
          ≡ some (
              finish_call name
                (about (entries xcall name empty))
                (called run functions (normalized xcall) name))
    unfolding invoke_named
    known functions xcall name e z =
        invoked functions xcall e
        ∙ known_function name (with_name name (metadata xcall)) (normalized xcall) functions z
        ∙ ap (λ m. some (finish_call name m (called run functions (normalized xcall) name)))
            (metadata-with_name xcall name)

    pub finish_failed :
        (name : Bytes) (metaret : Store F) (c : Called F)
        → c.returned ≡ none
        → (finish_call name metaret c).result ≡ with_error (invalid name) metaret
    unfolding finish_call
    finish_failed name metaret c r = rw (r, finish_call)

    pub finish_returned :
        (name : Bytes) (metaret : Store F) (c : Called F) {s : Store F}
        → c.returned ≡ some s
        → (finish_call name metaret c).result ≡ (merge_store s metaret).0
    unfolding finish_call
    finish_returned name metaret c r = rw (r, finish_call)

    pub failed :
        (functions : Functions) (xcall : Store F) (name : Bytes)
        → function_name (normalized xcall) ≡ some name
        → lookup_function name functions ≢ 0
        → (called run functions (normalized xcall) name).returned ≡ none
        → result_of (invoke_xcall format run functions xcall)
          ≡ some (about (entries xcall name (message (invalid name))))
    unfolding set_store_path read_component child bytes_eq replace_child
    failed functions xcall name e z r =
        ap result_of (known functions xcall name e z)
        ∙ ap some (
            finish_failed name (about (entries xcall name empty))
              (called run functions (normalized xcall) name) r)
