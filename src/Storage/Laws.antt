-- ===== src/Storage/Laws.antt =====
-- What is read from the storage after each of its operations.
use outcome.Prelude.{
  String, ◌≡◌, ◌&&◌, List, [], ◌∷◌, arith, ◌==◌, string_eq, pair_eq, contains, if◌then◌else◌, ◌∙◌,
}
use outcome.Prelude.Assoc
use outcome.Prelude.Assoc.{get-insert, get-remove}
use outcome.Prelude.Result.{ok, err}
use outcome.Data.{Var, StorageIndex, failed_getting_var_from_entity_storage}
use outcome.Storage.{Storage, get_var, set_var, insert, remove_comp_vars}

-- Inserting a variable makes it readable at its index, and changes nothing at any other.
pub get_var-insert :
    (s : Storage) (i j : StorageIndex) (v : Var)
    → get_var (insert s i v) j ≡ (if i == j then ok v else get_var s j)
unfolding get_var insert
get_var-insert s i j v = rw get-insert (ground arith)

-- A variable that can be read can be written through `get_var_mut`; the write changes what is read at its
-- index, and nothing at any other.
pub get_var-set_var :
    (s : Storage) (i j : StorageIndex) (v w : Var)
    → get_var s i ≡ ok w
    → (s' : Storage) × (set_var s i v ≡ ok s')
      × (get_var s' j ≡ (if i == j then ok v else get_var s j))
unfolding get_var set_var
get_var-set_var s i j v w h = (Assoc.insert i v s, ground arith, rw get-insert (ground arith))

-- After the variables of a component are removed, those of the given names are gone, and every other
-- variable of that component or of another one reads as before.
pub get_var-remove_comp_vars :
    (s : Storage) (comp : String) (names : List String) (c n : String)
    → get_var (remove_comp_vars s comp names) (c, n) ≡ (
        if (comp == c) && contains names n
        then err (failed_getting_var_from_entity_storage (c, n))
        else get_var s (c, n))
unfolding get_var remove_comp_vars
get_var-remove_comp_vars s comp [] c n = ground arith
get_var-remove_comp_vars s comp (m ∷ names) c n =
    get_var-remove_comp_vars (Assoc.remove (comp, m) s) comp names c n
    ∙ rw get-remove (ground arith)
