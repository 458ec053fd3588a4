-- ===== src/Xcall.antt =====
-- src/modules/xcall/xcall.c: functions that take and return a store, by their names.
pub mod Registry
pub mod Branches
pub mod Invoke
mod Tests
use kalisko.Base.{
  ℕ, Bool, true, false, ◌==◌, not, if◌then◌else◌, Option, none, some, List, [], ◌∷◌, ◌++◌, Bytes,
  codes,
}
use kalisko.Base.Table.{Table, get, put, drop}
use kalisko.Store.Value.{Store, Items, array, list, string, nil, cons, empty, create_store}
use kalisko.Store.Path.{
  Written, written, Found, found, set_store_path, get_store_path, delete_store_path,
}
use kalisko.Store.Clone.{clone_store}
use kalisko.Store.Merge.{merge_store}
use kalisko.Store.Lexer.Yylex.{Token, Location}
use kalisko.Store.Write.{write_store_gstring}
use kalisko.Store.Parse.{Parsed, parsed, rejected, RootTree, parse_store_string}

-- `functions`: a function is its pointer, and 0 is `NULL`.
abbrev pub Functions : Type 0
Functions = Table ℕ

abbrev pointer : Option ℕ → ℕ
pointer none = 0
pointer (some p) = p

-- `g_hash_table_lookup`
unfoldable pub lookup_function : Bytes → Functions → ℕ
unfolding get
lookup_function name functions = pointer (get name functions)

unfoldable pub add_xcall_function : Bytes → ℕ → Functions → Functions × Bool
unfolding lookup_function put
add_xcall_function name func functions =
    if not (lookup_function name functions == 0)
    then (functions, false)
    else (put name func functions, true)

unfoldable pub del_xcall_function : Bytes → Functions → Functions × Bool
unfolding lookup_function drop
del_xcall_function name functions =
    if lookup_function name functions == 0 then (functions, false) else (drop name functions, true)

unfoldable pub exists_xcall_function : Bytes → Functions → Bool
unfolding lookup_function
exists_xcall_function name functions = not (lookup_function name functions == 0)

-- What the writer needs: `atof`, `%f`, and where the lexer starts to count.
pub record Format (F : Type 0) : Type 0 where
  pub atof : Bytes → F
  pub format_double : F → Bytes
  pub location : Location

-- What an `XCallFunction` returns, `none` for `NULL`, and what it leaves of its argument and of the
-- functions.
pub record Called (F : Type 0) : Type 0 where
  pub returned : Option (Store F)
  pub xcall : Store F
  pub functions : Functions

-- What `invokeXCall` returns and leaves.
pub record Invoked (F : Type 0) : Type 0 where
  pub result : Store F
  pub xcall : Store F
  pub functions : Functions

-- The messages of `invokeXCall`.
abbrev pub unreadable : Bytes
unreadable = codes "Failed to read XCall function name"

abbrev pub not_found : Bytes → Bytes
not_found name = codes "Requested XCall function '" ++ (name ++ codes "' not found")

abbrev pub invalid : Bytes → Bytes
invalid name = codes "Requested XCall function '" ++ (name ++ codes "' returned invalid store")

module _ {F : Type 0} where
  -- The store behind a call whose result is ignored. The paths are constants, each with its parent
  -- in the store or with no parent, so that the other cases do not occur.
  abbrev stored : Store F → Written F → Store F
  stored s (written s' done) = s'
  stored s w = s

  abbrev set_path : Bytes → Store F → Store F → Store F
  set_path path value s = stored s (set_store_path s path value)

  abbrev delete_path : Bytes → Store F → Store F
  delete_path path s = stored s (delete_store_path s path)

  -- A string that `getStorePath` finds.
  abbrev string_at : Found F → Option Bytes
  string_at (found (some (string s))) = some s
  string_at _ = none

  -- The clone of the call without its `xcall`.
  unfoldable pub call_params : Store F → Store F
  unfolding delete_store_path clone_store
  call_params xcall = delete_path (codes "xcall") (clone_store xcall)

  -- `metaret` with the parameters.
  unfoldable pub metadata : Store F → Store F
  unfolding set_store_path call_params create_store
  metadata xcall =
      set_path (codes "xcall/params") (call_params xcall)
        (set_path (codes "xcall") (array empty) create_store)

  abbrev with_function : Option Bytes → Store F → Store F
  with_function none xcall = xcall
  with_function (some name) xcall =
      set_path (codes "xcall/function") (string name)
        (set_path (codes "xcall") create_store (delete_path (codes "xcall") xcall))

  -- A name that stands directly under `xcall` is moved to `xcall/function`.
  unfoldable pub normalized : Store F → Store F
  unfolding set_store_path delete_store_path get_store_path create_store
  normalized xcall = with_function (string_at (get_store_path xcall (codes "xcall"))) xcall

  unfoldable pub function_name : Store F → Option Bytes
  unfolding get_store_path
  function_name xcall = string_at (get_store_path xcall (codes "xcall/function"))

  abbrev pub with_name : Bytes → Store F → Store F
  with_name name metaret = set_path (codes "xcall/function") (string name) metaret

  abbrev pub with_error : Bytes → Store F → Store F
  with_error message metaret = set_path (codes "xcall/error") (string message) metaret

  -- The end of `invokeXCall`, behind the call of the function.
  unfoldable pub finish_call : Bytes → Store F → Called F → Invoked F
  unfolding set_store_path merge_store
  finish_call name metaret called =
      let result : Store F = elim called.returned [
        | none ↦ with_error (invalid name) metaret
        | some retstore ↦ (merge_store retstore metaret).0
      ] in
      record { result = result; xcall = called.xcall; functions = called.functions }

  -- What is done after a store was written to the log, `none` where writing it reads beyond a string.
  abbrev pub logged : Option Bytes → Invoked F → Option (Invoked F)
  logged none i = none
  logged (some text) i = some i

  -- `writeStoreGString`
  abbrev pub log_text : Format F → Store F → Option Bytes
  log_text format s = write_store_gstring format.atof format.format_double format.location s

  -- The call through the pointer is the parameter `run`.
  module _ (format : Format F) (run : ℕ → Functions → Store F → Called F) where
    unfoldable pub invoke_function : Bytes → Store F → Functions → Store F → Option (Invoked F)
    unfolding set_store_path lookup_function finish_call write_store_gstring
    invoke_function name metaret functions xcall =
        if lookup_function name functions == 0
        then logged (log_text format xcall) (record {
          result = with_error (not_found name) metaret;
          xcall = xcall;
          functions = functions;
        })
        else some (finish_call name metaret (run (lookup_function name functions) functions xcall))

    -- The part behind the search for the name.
    unfoldable pub invoke_named : Functions → Store F → Store F → Option Bytes → Option (Invoked F)
    unfolding set_store_path invoke_function write_store_gstring
    invoke_named functions metaret xcall none =
        logged (log_text format xcall)
          (record { result = with_error unreadable metaret; xcall = xcall; functions = functions })
    invoke_named functions metaret xcall (some name) =
        invoke_function name (with_name name metaret) functions xcall

    -- `invokeXCall`; `none` where writing the call for the log reads beyond a string.
    unfoldable pub invoke_xcall : Functions → Store F → Option (Invoked F)
    unfolding metadata normalized function_name invoke_named
    invoke_xcall functions xcall =
        let call = normalized xcall in
        invoke_named functions (metadata xcall) call (function_name call)

    abbrev unparsed : Bytes → Store F
    unparsed text =
        set_path (codes "xcall/error")
          (string (codes "Failed to parse XCall store string: " ++ text))
          (set_path (codes "xcall") (array empty) create_store)

    abbrev answered : Option (Invoked F) → Option (Store F × Functions)
    answered none = none
    answered (some i) = some (i.result, i.functions)

    abbrev pub invoke_parsed : Functions → Bytes → Parsed F → Option (Store F × Functions)
    invoke_parsed functions text (parsed xcall) = answered (invoke_xcall functions xcall)
    invoke_parsed functions text rejected = some (unparsed text, functions)
    invoke_parsed functions text Parsed.fault = none
    invoke_parsed functions text Parsed.out_of_fuel = none

    -- `invokeXCallByString`; `none` where `parseStoreString` does not return or `invokeXCall` reads
    -- beyond a string.
    unfoldable pub invoke_xcall_by_string :
        (List (Token F) → Option (RootTree F)) → Functions → Bytes → Option (Store F × Functions)
    unfolding invoke_xcall parse_store_string set_store_path create_store
    invoke_xcall_by_string parser functions text =
        invoke_parsed functions text (parse_store_string parser format.atof text)

-- The names of the functions in a list.
unfoldable pub function_names : {F : Type 0} → Functions → Items F
function_names [] = nil
function_names ((name, func) ∷ functions) = cons (string name) (function_names functions)

-- `xcall_getXCallFunctions`
unfoldable pub xcall_get_xcall_functions : {F : Type 0} → Functions → Store F → Called F
unfolding set_store_path create_store function_names
xcall_get_xcall_functions functions xcall = record {
  returned = some (
      set_path (codes "functions") (list (function_names functions))
        (set_path (codes "xcall") (array empty) create_store));
  xcall = xcall;
  functions = functions;
}
