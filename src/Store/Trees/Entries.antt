-- ===== src/Store/Trees/Entries.antt =====
-- src/store.rs: `tree_entries` and `get_name` agree on a tree whose names are unique.
use deptool.Base.{
  ◌≡◌, refl, ap, ◌∙◌, String, Bool, true, false, Option, none, some, [], ◌∷◌, arith, ◌⊎◌, inl, inr,
  string_ord, if◌then◌else◌,
}
use deptool.BTreeMap.{BTreeMap, get, IsSorted}
use deptool.BTreeMap.Laws.{get-nil, get-insert, insert-IsSorted}
use deptool.Types.{Oid}
use deptool.Store.Repository.{Tree, TreeEntry, ObjectType, tree, blob, other, get_name, name_is}
use deptool.Store.Trees.{tree_entries, entries_loop, note_subtree}

abbrev IsAbsent : Tree → Option String → Type 0
IsAbsent es none = Unit {0}
IsAbsent es (some n) = get_name es n ≡ none

-- Git keeps the names of a tree's entries distinct.
abbrev pub HasUniqueNames : Tree → Type 0
HasUniqueNames [] = Unit {0}
HasUniqueNames (e ∷ es) = IsAbsent es e.name × HasUniqueNames es

note_subtree-IsSorted :
    (kind : ObjectType) (name : Option String) (oid : Oid) (entries : BTreeMap String Oid)
    → IsSorted entries
    → IsSorted (note_subtree kind name oid entries)
note_subtree-IsSorted tree none oid entries s = s
note_subtree-IsSorted tree (some n) oid entries s = insert-IsSorted n oid entries s
note_subtree-IsSorted blob name oid entries s = s
note_subtree-IsSorted other name oid entries s = s

get-note_subtree :
    (kind : ObjectType) (name : Option String) (id : Oid) (entries : BTreeMap String Oid)
    (k : String) (oid : Oid)
    → get k (note_subtree kind name id entries) ≡ some oid
    → (get k entries ≡ some oid) ⊎ ((name ≡ some k) × (id ≡ oid))
get-note_subtree tree none id entries k oid g = inl g
get-note_subtree tree (some n) id entries k oid g =
    ground (arith, get-insert k n id entries, string_ord.beq_iff k n)
get-note_subtree blob name id entries k oid g = inl g
get-note_subtree other name id entries k oid g = inl g

absent_differs :
    (t : Tree) (name : Option String) (k : String) (f : TreeEntry)
    → IsAbsent t name
    → get_name t k ≡ some f
    → name_is name k ≡ false
absent_differs t none k f u g = refl
absent_differs t (some n) k f u g = ground (arith, string_ord.beq_iff n k)

get_name-cons :
    (e : TreeEntry) (t : Tree) (k : String) (f : TreeEntry)
    → HasUniqueNames (e ∷ t)
    → get_name t k ≡ some f
    → get_name (e ∷ t) k ≡ some f
unfolding get_name
get_name-cons e t k f u g =
    ap (λ (b : Bool). if b then some e else get_name t k) (absent_differs t e.name k f u.0 g) ∙ g

named_is : (name : Option String) (k : String) → name ≡ some k → name_is name k ≡ true
named_is name k named = rw named ((string_ord.beq_iff k k).1 refl)

get_name-head :
    (e : TreeEntry) (t : Tree) (k : String) → e.name ≡ some k → get_name (e ∷ t) k ≡ some e
unfolding get_name
get_name-head e t k named =
    ap (λ (b : Bool). if b then some e else get_name t k) (named_is e.name k named)

entries_loop-IsSorted :
    (t : Tree) (entries : BTreeMap String Oid)
    → IsSorted entries
    → IsSorted (entries_loop t entries)
unfolding entries_loop
entries_loop-IsSorted [] entries s = s
entries_loop-IsSorted (e ∷ t) entries s =
    entries_loop-IsSorted t (note_subtree e.kind e.name e.id entries)
      (note_subtree-IsSorted e.kind e.name e.id entries s)

pub tree_entries-IsSorted : (t : Tree) → IsSorted (tree_entries t)
unfolding tree_entries
tree_entries-IsSorted t = entries_loop-IsSorted t [] tt

-- The entry of the tree that has the name and the id.
abbrev pub IsEntry : Tree → String → Oid → Type 0
IsEntry t k oid = (e : TreeEntry) × (get_name t k ≡ some e) × (e.id ≡ oid)

get-entries_loop :
    (t : Tree) (entries : BTreeMap String Oid) (k : String) (oid : Oid)
    → HasUniqueNames t
    → get k (entries_loop t entries) ≡ some oid
    → (get k entries ≡ some oid) ⊎ IsEntry t k oid
unfolding entries_loop
get-entries_loop [] entries k oid u g = inl g
get-entries_loop (e ∷ t) entries k oid u g =
    elim (get-entries_loop t (note_subtree e.kind e.name e.id entries) k oid u.1 g) [
      | inr (f, found, same) ↦ inr (f, get_name-cons e t k f u found, same)
      | inl here ↦ elim (get-note_subtree e.kind e.name e.id entries k oid here) [
        | inl before ↦ inl before
        | inr (named, same) ↦ inr (e, get_name-head e t k named, same)
      ]
    ]

-- In a tree with unique names, what `tree_entries` lists under a name is what `get_name` finds.
pub get-tree_entries :
    (t : Tree) (k : String) (oid : Oid)
    → HasUniqueNames t
    → get k (tree_entries t) ≡ some oid
    → IsEntry t k oid
unfolding tree_entries
get-tree_entries t k oid u g = elim (get-entries_loop t [] k oid u g) [
  | inl nothing ↦ cc (get-nil {V = Oid} k)
  | inr found ↦ found
]
