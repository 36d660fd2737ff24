-- ===== src/Tests/LinkFiles.antt =====
-- A file system of links and directories, without intermediate directories, and its laws. The
-- directory `/u` lists two names, and that of an app its links and two versions.
use deptool.Base.{
  ◌≡◌, refl, sym, ◌∙◌, ap, String, ◌<>◌, Bool, true, false, not, Option, none, some, List, [], ◌∷◌,
  Result, ok, err, ◌==◌, string_ord, arith, if◌then◌else◌, Bool-cases, inl, inr, subst,
  ok-injective,
}
use mathlib.Core.Option.{some-injective}
use deptool.BTreeMap.{is_some}
use deptool.Types.{PathBuf, ends_with_slash}
use deptool.FileSystem.{FileSystem, IoError, ErrorKind, DirEntry}
use deptool.Checkout.Links.Kept.{LinkLaws, link_at, AreNamed}
use deptool.Checkout.Apps.Rotated.{RenameLaws}
use deptool.Tests.MemoryRepository.{memory_repository}

pub data Node : Type 0 where
  link : PathBuf → Node
  directory : Node

abbrev pub Nodes : Type 0
Nodes = PathBuf → Option Node

abbrev absent : IoError
absent = record { kind = ErrorKind.missing; message = "No such file or directory" }

abbrev present : IoError
present = record { kind = ErrorKind.already_exists; message = "File exists" }

abbrev pub put : PathBuf → Option Node → Nodes → Nodes
put p node s q = if q == p then node else s q

abbrev target_of : Option Node → Result IoError PathBuf
target_of (some (link target)) = ok target
target_of _ = err absent

abbrev is_link : Option Node → Bool
is_link (some (link _)) = true
is_link _ = false

abbrev is_directory : Option Node → Bool
is_directory (some directory) = true
is_directory _ = false

abbrev pub removed : PathBuf → Option Node → Nodes → Result IoError (Unit {0}) × Nodes
removed p (some _) s = (ok tt, put p none s)
removed p none s = (err absent, s)

abbrev linked : PathBuf → PathBuf → Option Node → Nodes → Result IoError (Unit {0}) × Nodes
linked target p none s = (ok tt, put p (some (link target)) s)
linked target p (some _) s = (err present, s)

abbrev renamed : PathBuf → PathBuf → Option Node → Nodes → Result IoError (Unit {0}) × Nodes
renamed a b none s = (err absent, s)
renamed a b (some node) s = (ok tt, put b (some node) (put a none s))

abbrev entry : PathBuf → String → Option Node → DirEntry
entry dir name node = record {
  path = dir <> ("/" <> name);
  file_name = some name;
  entry_is_dir = is_directory node;
  entry_is_file = false;
  entry_is_symlink = is_link node;
}

abbrev listing :
    PathBuf → String → Option Node → List (Result IoError DirEntry) → List (Result IoError DirEntry)
listing dir name none entries = entries
listing dir name (some node) entries = ok (entry dir name (some node)) ∷ entries

abbrev names_in : Nodes → PathBuf → Result IoError (List (Result IoError DirEntry))
names_in s dir =
    if dir == "/u"
    then ok (
        listing "/u" "a.service" (s "/u/a.service")
          (listing "/u" "b.service" (s "/u/b.service") []))
    else if dir == "/apps/a"
    then ok (listing "/apps/a" "v1" (s "/apps/a/v1") (listing "/apps/a" "v2" (s "/apps/a/v2") []))
    else err absent

abbrev pub link_files : FileSystem memory_repository
link_files = record {
  State = Nodes;
  exists = λ s path. is_some (s path);
  is_dir = λ s path. is_directory (s path);
  is_symlink = λ s path. is_link (s path);
  occupied = λ s path. is_some (s path);
  read_link = λ s path. target_of (s path);
  read_dir = names_in;
  metadata = λ s path. err absent;
  read = λ s path. err absent;
  is_executable = λ s path. err absent;
  depth = λ s path. 1;
  create_dir_all = λ path s. (ok tt, s);
  remove_file = λ path s. removed path (s path) s;
  remove_dir = λ path s. (err present, s);
  remove_dir_all = λ path s. removed path (s path) s;
  rename = λ from to s. renamed from to (s from) s;
  symlink = λ target path s. linked target path (s path) s;
  set_mode_755 = λ path s. (ok tt, s);
  remove_write_bits = λ path s. (ok tt, s);
  checkout_tree = λ m oid path s. (ok tt, s);
  open_lock_file = λ path s. (ok tt, s);
  try_flock_exclusive = λ path s. (ok true, s);
  read_lock_file = λ s path. "";
  truncate_lock_file = λ path s. (ok tt, s);
  rewind_lock_file = λ path s. (ok tt, s);
  write_lock_file = λ path text s. s;
  release_lock = λ path s. s;
  open_log = λ path s. (ok tt, s);
}

abbrev pub apart : PathBuf → PathBuf → Bool
apart p q = not (p == q)

pub apart_comm : (p q : PathBuf) → apart p q ≡ apart q p
apart_comm p q = ground (arith, string_ord.beq_iff p q, string_ord.beq_iff q p)

-- The links of a state, as the operations see them.
abbrev target_at : Option Node → Option PathBuf
target_at (some (link target)) = some target
target_at _ = none

link_at_lem : (s : Nodes) (p : PathBuf) → link_at link_files s p ≡ target_at (s p)
unfolding link_at
link_at_lem s p = ground arith

put-apart : (p q : PathBuf) (n : Option Node) (s : Nodes) → apart p q ≡ true → put p n s q ≡ s q
put-apart p q there s h = ground (arith, string_ord.beq_iff p q, string_ord.beq_iff q p)

put_self : (p : PathBuf) (there : Option Node) (s : Nodes) → put p there s p ≡ there
put_self p there s = ground (arith, string_ord.beq_iff p p)

pub removed-apart :
    (p q : PathBuf) (node_at : Option Node) (s : Nodes)
    → apart p q ≡ true
    → (removed p node_at s).1 q ≡ s q
removed-apart p q none s h = refl
removed-apart p q (some _) s h = put-apart p q none s h

linked-apart :
    (target p q : PathBuf) (node : Option Node) (s : Nodes)
    → apart p q ≡ true
    → (linked target p node s).1 q ≡ s q
linked-apart target p q none s h = put-apart p q (some (link target)) s h
linked-apart target p q (some _) s h = refl

removed-gone :
    (p : PathBuf) (node : Option Node) (s : Nodes)
    → (removed p node s).0 ≡ ok tt
    → (removed p node s).1 p ≡ none
removed-gone p none s h = cc
removed-gone p (some _) s h = put_self p none s

linked-made :
    (target p : PathBuf) (node : Option Node) (s : Nodes)
    → (linked target p node s).0 ≡ ok tt
    → (linked target p node s).1 p ≡ some (link target)
linked-made target p none s h = put_self p (some (link target)) s
linked-made target p (some _) s h = cc

listing-AreNamed :
    (dir : PathBuf) (name : String) (node : Option Node) (entries : List (Result IoError DirEntry))
    → ends_with_slash (dir <> ("/" <> name)) ≡ false
    → AreNamed link_files dir entries
    → AreNamed link_files dir (listing dir name node entries)
listing-AreNamed dir name none entries plain h = h
listing-AreNamed dir name (some node) entries plain h =
    (λ n e. (ap (λ x. dir <> ("/" <> x)) (some-injective name n e), plain), h)

units-AreNamed :
    (s : Nodes)
    → AreNamed link_files "/u" (
        listing "/u" "a.service"
          (s "/u/a.service")
          (listing "/u" "b.service" (s "/u/b.service") []))
unfolding ends_with_slash
units-AreNamed s =
    listing-AreNamed "/u" "a.service" (s "/u/a.service") _ refl
      (listing-AreNamed "/u" "b.service" (s "/u/b.service") [] refl tt)

versions-AreNamed :
    (s : Nodes)
    → AreNamed link_files "/apps/a"
        (listing "/apps/a" "v1" (s "/apps/a/v1") (listing "/apps/a" "v2" (s "/apps/a/v2") []))
unfolding ends_with_slash
versions-AreNamed s =
    listing-AreNamed "/apps/a" "v1" (s "/apps/a/v1") _ refl
      (listing-AreNamed "/apps/a" "v2" (s "/apps/a/v2") [] refl tt)

names-AreNamed :
    (s : Nodes) (dir : PathBuf) (entries : List (Result IoError DirEntry))
    → names_in s dir ≡ ok entries
    → AreNamed link_files dir entries
names-AreNamed s dir entries h = elim (Bool-cases (dir == "/u")) [
  | inl at_u ↦
      subst (λ x. AreNamed link_files x entries) (sym ((string_ord.beq_iff dir "/u").0 at_u))
        (subst (AreNamed link_files "/u") (ok-injective (rw at_u at h)) (units-AreNamed s))
  | inr elsewhere ↦ elim (Bool-cases (dir == "/apps/a")) [
    | inl at_a ↦
        subst (λ x. AreNamed link_files x entries) (sym ((string_ord.beq_iff dir "/apps/a").0 at_a))
          (subst (AreNamed link_files "/apps/a") (ok-injective (rw (elsewhere, at_a) at h))
            (versions-AreNamed s))
    | inr nowhere ↦ cc (rw (elsewhere, nowhere) at h)
  ]
]

pub link_laws : LinkLaws link_files apart
link_laws = record {
  remove_file_apart = λ p q s h.
      link_at_lem _ q ∙ ap target_at (removed-apart p q (s p) s h) ∙ sym (link_at_lem s q);
  symlink_apart = λ target p q s h.
      link_at_lem _ q ∙ ap target_at (linked-apart target p q (s p) s h) ∙ sym (link_at_lem s q);
  create_dir_same = λ p q s. refl;
  set_mode_same = λ p q s. refl;
  remove_dir_same = λ p q s. refl;
  remove_file_gone = λ p s h. link_at_lem _ p ∙ ap target_at (removed-gone p (s p) s h);
  symlink_made = λ target p s h. link_at_lem _ p ∙ ap target_at (linked-made target p (s p) s h);
  listed = λ s dir entries plain h. names-AreNamed s dir entries h;
}

renamed-moved :
    (a b : PathBuf) (node : Option Node) (s : Nodes)
    → (renamed a b node s).0 ≡ ok tt
    → (renamed a b node s).1 b ≡ node
renamed-moved a b none s h = cc
renamed-moved a b (some node) s h = put_self b (some node) (put a none s)

renamed-others :
    (a b q : PathBuf) (node : Option Node) (s : Nodes)
    → apart a q ≡ true
    → apart b q ≡ true
    → (renamed a b node s).1 q ≡ s q
renamed-others a b q none s h k = refl
renamed-others a b q (some node) s h k =
    put-apart b q (some node) (put a none s) k ∙ put-apart a q none s h

target_at-occupied :
    (node : Option Node) (target : PathBuf) → target_at node ≡ some target → is_some node ≡ true
target_at-occupied (some _) target h = refl
target_at-occupied none target h = cc

pub rename_laws : RenameLaws link_files apart
rename_laws = record {
  moved = λ a b s h.
      link_at_lem _ b ∙ ap target_at (renamed-moved a b (s a) s h) ∙ sym (link_at_lem s a);
  others = λ a b q s h k.
      link_at_lem _ q ∙ ap target_at (renamed-others a b q (s a) s h k) ∙ sym (link_at_lem s q);
  linked = λ p target s h. target_at-occupied (s p) target (sym (link_at_lem s p) ∙ h);
}
