-- ===== src/Baseline/Audit.antt =====
-- The audits of two steps: `_normalize_io_audit`, `_io_audit_key`, `_key_to_io_entry` and
-- `_io_audit_diff`. A set is a list without the items that come again.
use tracecore.Prelude.{
  String, Bool, true, false, not, ◌&&◌, ◌||◌, Option, none, some, List, [], ◌∷◌, ◌==◌, any, filter,
  map, is_empty, if◌then◌else◌,
}
use tracecore.Prelude.Dict.{Dict}
use tracecore.Prelude.Sort.{sort_by, text_leb}
use tracecore.Value.{Value, bool, int, list, dict, to_list, to_dict, truthy, get_or_null, as_str}
use tracecore.Exc.{Result, ok, raised, ◌>>=◌, type_error}

-- An entry has the keys that hold a text.
pub record IoEntry : Type 0 where
  pub kind : Option String
  pub op : Option String
  pub path : Option String
  pub host : Option String

abbrev pub text_at : String → Dict Value → Option String
text_at k d = as_str (get_or_null k d)

abbrev io_entry : Dict Value → IoEntry
io_entry raw = record {
  kind = text_at "type" raw;
  op = text_at "op" raw;
  path = text_at "path" raw;
  host = text_at "host" raw;
}

abbrev is_there : IoEntry → Bool
is_there e = present e.kind || present e.op || present e.path || present e.host
  where
    present : Option String → Bool
    present none = false
    present (some s) = true

abbrev pub Key : Type 0
Key = (String × String) × (String × String)

abbrev text_or : Option String → String
text_or none = ""
text_or (some s) = s

-- `_io_audit_key`
abbrev pub io_audit_key : IoEntry → Key
io_audit_key e = ((text_or e.kind, text_or e.op), (text_or e.path, text_or e.host))

-- Whether a key comes before another or is it.
abbrev pub pair_leb : String × String → String × String → Bool → Bool
pair_leb (a, b) (c, d) rest =
    if a == c then (if b == d then rest else text_leb b d) else text_leb a c

abbrev pub key_leb : Key → Key → Bool
key_leb (p, q) (r, s) = pair_leb p r (pair_leb q s true)

abbrev entry_leb : IoEntry → IoEntry → Bool
entry_leb d e = key_leb (io_audit_key d) (io_audit_key e)

unfoldable pub io_entries : List Value → List IoEntry
io_entries [] = []
io_entries (dict f ∷ rest) =
    let later = io_entries rest in
    if is_there (io_entry (to_dict f)) then io_entry (to_dict f) ∷ later else later
io_entries (_ ∷ rest) = io_entries rest

-- `_normalize_io_audit`. What is not a list has no dict among its items, or no items at all.
unfoldable pub normalize_io_audit : Value → Result (List IoEntry)
unfolding io_entries
normalize_io_audit (list vs) = ok (sort_by entry_leb (io_entries (to_list vs)))
normalize_io_audit (int n) = if truthy (int n) then raised (type_error "iterable") else ok []
normalize_io_audit (bool b) = if b then raised (type_error "iterable") else ok []
normalize_io_audit _ = ok []

abbrev pub same_key : Key → Key → Bool
same_key ((a, b), (c, d)) ((e, f), (g, h)) = a == e && b == f && c == g && d == h

abbrev pub has : Key → List Key → Bool
has k ks = any (λ j. same_key j k) ks

-- `{key for …}`
unfoldable pub key_set : List Key → List Key
key_set [] = []
key_set (k ∷ ks) = let rest = key_set ks in if has k rest then rest else k ∷ rest

-- `sorted(set_b - set_a)`
abbrev pub minus : List Key → List Key → List Key
minus bs as' = sort_by key_leb (filter (λ k. not (has k as')) bs)

abbrev some_text : String → Option String
some_text s = if s == "" then none else some s

-- `_key_to_io_entry`
abbrev pub key_to_io_entry : Key → IoEntry
key_to_io_entry ((a, b), (c, d)) = record {
  kind = some_text a;
  op = some_text b;
  path = some_text c;
  host = some_text d;
}

pub record IoDelta : Type 0 where
  pub added : List IoEntry
  pub removed : List IoEntry

abbrev pub delta_of : List Key → List Key → Option IoDelta
delta_of set_a set_b =
    let added = map key_to_io_entry (minus set_b set_a) in
    let removed = map key_to_io_entry (minus set_a set_b) in
    if is_empty added && is_empty removed
    then none
    else some (record { added = added; removed = removed })

abbrev pub keys_of : Value → Result (List Key)
keys_of v = do entries ← normalize_io_audit v; ok (key_set (map io_audit_key entries))

-- `_io_audit_diff`
unfoldable pub io_audit_diff : Value → Value → Result (Option IoDelta)
io_audit_diff a b = do set_a ← keys_of a; set_b ← keys_of b; ok (delta_of set_a set_b)
