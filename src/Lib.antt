-- ===== src/Lib.antt =====
-- A model of the Kalisko application framework and of modules around its core, with the theorems
-- that make them correct. Paths are from the repository's root.
--
-- Store and its children model src/modules/store, the recursive key-value store:
--   Store.Lexer             lexer.c: the types of characters, the state functions, their dispatch.
--   Store.Lexer.Yylex       lexer.c: yylex, lexStore, checkSimpleStoreStringCapability, over the
--                           readers of parse.c.
--   Store.Text              store.c: escapeStoreString.
--   Store.Value             store.i: the tree of values; Store.Value.Tables has the operations of
--                           GQueue and GHashTable on the contents of lists and arrays.
--   Store.Path              path.c: getStorePath, setStorePath, deleteStorePath, splitStorePath.
--   Store.Clone             clone.c, Store.Merge: merge.c, Store.Write: write.c.
-- Timer models src/timer.c (and compareTimes of src/util.c):
--   Timer                   the operations on the tree of timers, which is the list of its entries in
--                           their order, and the loop that calls the callbacks.
--   Timer.Tree              the order of times, the tree's laws; Timer.Add and Timer.Notify have the
--                           proofs for the operations.
-- Version models src/version.c.
-- Module and its children model src/module.c, the loader of modules:
--   Module                  the data, initModules, the getters, the checks of a new module.
--   Module.Load             needModule, unneedModule, requestModule, revokeModule,
--                           forceUnloadModule, addModuleRuntimeDependency and freeModules. It calls
--                           removeModuleTimers of Timer.
--   Module.Counts           what it means that the references are counted; Module.Unload,
--                           Module.Unneed and Module.Revoke have the proofs for unloading,
--                           Module.Parent, Module.Link, Module.Pending, Module.Need, Module.Loading,
--                           Module.Initialize, Module.NeedModule, Module.Entered and
--                           Module.Requested those for
--                           loading, Module.Edge and Module.Depend those for runtime dependencies,
--                           and Module.Commands puts requests and revocations together.
--   Module.Graph            the dependencies as a graph; Module.Runtime, Module.Request and
--                           Module.Fresh have the proofs for the operations.
-- The shared libraries, with what their functions answer and do, are a parameter of the loader. A
-- reference to a module is its name. An initializer may call requestModule and
-- addModuleRuntimeDependency on the way, as those of src/modules/module_perform/module_perform.c and
-- src/modules/gtksourceview/gtksourceview.c do; a finalizer changes the world around the loader only. The build for Linux is modelled: skip_reload is never set.
-- Event models src/modules/event/event.c: the queues of listeners and the operations on them;
--   Event.Order has the order of priorities, Event.Attach and Event.Detach the operations
--   that attach and detach. A queue is the list of its entries, and
--   g_queue_insert_sorted puts a new one before those equal to it.
-- Store.Schema models src/modules/store/schema.c, and Store.Validate validate.c beside it:
--   Store.Validate.Conforms says what it means to
--                           conform to a schema, Store.Validate.Loops and Store.Validate.Answers
--                           have the proofs.
-- Store.Parse models src/modules/store/parser.y and parse.c. yyparse, which Bison makes, is the
-- parameter `parser`, and IsParser is what is asked of it:
--   Store.Parse.Automaton   such a parser, with Store.Parse.Grammar for its proof
--   Store.Parse.Stored      the tokens of a store; Store.Parse.Input: the tokens of a string;
--                           Store.Parse.RoundTrip: writing and parsing, by Store.Write.Whole.
-- Xcall models src/modules/xcall/xcall.c on top of the store: Xcall.Registry has the table of
-- functions, Xcall.Branches the branches of a call, and Xcall.Invoke what it
-- returns. The functions themselves are the parameter `run`. A call that fails is written to the
-- log by the modelled writer.
-- PropertyTable models src/modules/property_table/property_table.c, with PropertyTable.Values; the
-- table of subjects, Base.Pointers, is also that of the events.
-- Config models src/modules/config/config.c on the store, the options and an interface to the disk,
-- which Config.Files fills in with the modelled parser and writer of the store module:
--   Config                  the merges that files ask for; Config.Load and Config.Save: the operations.
--   Config.Layers           the order of the layers; Config.Combined, Config.Saved and Config.Merges
--                           have the invariant, the saved file and the merges that go wrong.
-- Strings models src/modules/string_util/string_util.c, with what the parts use of the string functions
-- of C and GLib; Strings.Squeezed has its proofs. Irc models
-- src/modules/irc_parser/irc_parser.c on top of it: Irc.Message and Irc.RoundTrip have the proofs for
-- messages, and Irc.Mask those for user masks.
-- Getopts models src/modules/getopts/getopts.c; Getopts.Given has the options of a command line.
--
-- Function names are those of the sources in snake case (getStorePath is get_store_path). A C string
-- is the list of its bytes; a GHashTable is the list of its entries in the order in which an
-- iteration meets them, which GLib leaves open and no theorem depends on.
--
-- The parts interact as in the sources: the writer asks the lexer whether a string needs quotes, the
-- path functions work on the tree that cloning and merging build, unloading a module removes its
-- timers, the configuration parses and merges stores, and the IRC parser strips white
-- characters with the functions on strings.
--
-- Fuel: yylex is given one round for each character and one more, lexStore two more than there are
-- characters, getStorePath one more than the bytes of the path: each
-- round takes a byte of the text, and the last one sees its end. A read beyond the memory of a
-- string, or through a pointer that is NULL, is a result of its own (`fault` or `none`).
-- The loops of timer.c have one round more than there are entries, since each takes
-- one away or passes one by.
-- The recursions of module.c take their fuel as an argument: a search along dependencies needs one
-- more than the longest chain of them, a request
-- one more than the chain of modules it loads, and twice the number of libraries and one is enough
-- for all requests and revocations.
-- Validation takes as its fuel the number of aliases that it follows in a row.
-- The tokens of a string are read with one more call than it has characters.
-- Merges in configuration files take as their fuel the depth of files that ask for files, and the
-- rounds of the loop over a list.
--
-- Parameters: the C library's atof and %f, with the type of double, the location at which the
-- lexer starts to count, the clock, what the callbacks of timers and the listeners of events do, and
-- the shared libraries of modules, the parser that Bison makes of the grammar, the functions that
-- are called over stores, the arguments of the command line, and the characters that GLib strips as
-- white. Integers are unbounded where the
-- sources use int, except for the sleep time and the difference of two priorities, which are cut to 32 bits.
--
-- Not modelled: memory management and logging, which have no result in the model; format strings,
-- tables, the quadtree and module packages; the modules for the network, graphics, scripting and the
-- console, which mostly call libraries that are not part of the repository.
pub mod Base
pub mod Store
pub mod Timer
pub mod Version
pub mod Module
pub mod Event
pub mod Xcall
pub mod Getopts
pub mod Irc
pub mod Strings
pub mod Config
pub mod PropertyTable
