-- ===== src/Types.antt =====
-- src/prim.rs and the standard library's paths: object ids, hostnames, paths as texts.
-- An `Oid` is its 40 lowercase hexadecimal digits, whose order is that of the 20 bytes.
use Prim.Native.Char.{code}
use Prim.Native.String.{slice}
use text.Mathlib.Text.{starts_with}
use deptool.Base.{
  String, ◌<>◌, Bool, true, false, Option, none, some, List, [], ◌∷◌, ◌||◌, ◌==◌, string_ord,
  nat_eq, if◌then◌else◌,
}

abbrev pub Oid : Type 0
Oid = String

-- `struct Hostname(pub String)`
abbrev pub Hostname : Type 0
Hostname = String

abbrev pub PathBuf : Type 0
PathBuf = String

-- `buf.truncate(OID_PREFIX_LEN)` of the hexadecimal text.
unfoldable pub oid_prefix : Oid → String
oid_prefix oid = slice oid 0 10

-- `slice.join(sep)` of texts.
unfoldable pub join_texts : String → List String → String
join_texts sep [] = ""
join_texts sep (s ∷ []) = s
join_texts sep (s ∷ t ∷ ss) = s <> (sep <> join_texts sep (t ∷ ss))

unfoldable pub ends_with_slash : String → Bool
ends_with_slash String.[] = false
ends_with_slash (String.◌∷◌ c String.[]) = nat_eq (code c) b'/'
ends_with_slash (String.◌∷◌ c (String.◌∷◌ d s)) = ends_with_slash (String.◌∷◌ d s)

-- `Path::join`: an absolute second part replaces the first, and no second separator is added.
unfoldable pub join : PathBuf → String → PathBuf
unfolding ends_with_slash
join a b =
    if starts_with b "/"
    then b
    else if a == "" || ends_with_slash a
    then a <> b
    else a <> ("/" <> b)

-- The part before a `/` is a component, unless it is empty or `.`.
abbrev component : String → List String → List String
component part rest = if part == "" || part == "." then rest else part ∷ rest

split_at_slashes : String → String → List String
split_at_slashes part String.[] = component part []
split_at_slashes part (String.◌∷◌ c s) = elim (nat_eq (code c) b'/') [
  | true ↦ component part (split_at_slashes "" s)
  | false ↦ split_at_slashes (part <> String.◌∷◌ c "") s
]

-- `Path::components`: the root of an absolute path is the component `/`.
unfoldable pub components : PathBuf → List String
unfolding split_at_slashes
components path =
    let parts = split_at_slashes "" path in if starts_with path "/" then "/" ∷ parts else parts

-- `Path::strip_prefix`, as the components that are left.
strip_components : List String → List String → Option (List String)
strip_components [] parts = some parts
strip_components (p ∷ ps) [] = none
strip_components (p ∷ ps) (q ∷ qs) = elim (p == q) [ true ↦ strip_components ps qs | false ↦ none ]

unfoldable pub strip_prefix : PathBuf → PathBuf → Option (List String)
unfolding strip_components components
strip_prefix path base = strip_components (components base) (components path)

-- `Path::starts_with`
unfoldable pub starts_with_path : PathBuf → PathBuf → Bool
unfolding strip_prefix
starts_with_path path base = elim (strip_prefix path base) [ some _ ↦ true | none ↦ false ]

join_components : List String → PathBuf
unfolding join
join_components [] = ""
join_components (p ∷ []) = p
join_components (p ∷ q ∷ ps) = join p (join_components (q ∷ ps))

drop_last : List String → List String
drop_last [] = []
drop_last (p ∷ []) = []
drop_last (p ∷ q ∷ ps) = p ∷ drop_last (q ∷ ps)

parent_of : List String → Option PathBuf
unfolding join_components drop_last
parent_of [] = none
parent_of (p ∷ []) = if p == "/" then none else some ""
parent_of (p ∷ q ∷ ps) = some (join_components (p ∷ drop_last (q ∷ ps)))

-- `Path::parent`
unfoldable pub parent : PathBuf → Option PathBuf
unfolding parent_of components
parent path = parent_of (components path)
