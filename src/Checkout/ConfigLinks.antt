-- ===== src/Checkout/ConfigLinks.antt =====
-- src/checkout.rs: the links of an app's manifest, at paths outside the apps' directory.
pub mod Foreign
use deptool.Base.{
  String, ◌<>◌, Bool, true, false, ◌&&◌, ◌||◌, not, nat_eq, Option, none, some, List, [], ◌∷◌,
  Result, ok, err, failed, attempt, map_err, ◌==◌, string_ord, if◌then◌else◌, ◌>>=◌ as and_then,
}
use deptool.Types.{PathBuf, starts_with_path, parent}
use deptool.Error.{ApplyError, symlink_failed, display_apply_error}
use deptool.Store.Repository.{Repository}
use deptool.FileSystem.{
  FileSystem, IoError, Metadata, ErrorKind, missing, already_exists, other_kind,
}
use deptool.Io.{pure, fail, lift, lift_reads, reads, when, ◌>>=◌, ◌>>◌}
use deptool.Plan.Changes.{SymlinkChanges}
use deptool.Checkout.Disk.{DiskIo, io_failed, remove_file, symlink}

pub data LinkState : Type 0 where
  points_at_source matching_file directory mismatch : LinkState

abbrev links_to : Result IoError PathBuf → PathBuf → Bool
links_to (ok target) source = target == source
links_to (err _) source = false

abbrev pub refusal : PathBuf → PathBuf → PathBuf → ApplyError
refusal link actual apps_dir =
    symlink_failed link ("refusing to touch: points to " <> (actual <> (", not into " <> apps_dir)))

abbrev pub is_already_exists : ErrorKind → Bool
is_already_exists already_exists = true
is_already_exists _ = false

module _ {R : Repository} (F : FileSystem R) where
  unfoldable pub metadata : F.State → PathBuf → Result ApplyError Metadata
  metadata files path = map_err (io_failed "inspect" path) (F.metadata files path)

  -- The contents of a file, which the source opens and then reads in blocks.
  unfoldable pub read : F.State → PathBuf → Result ApplyError String
  read files path = map_err (io_failed "read" path) (F.read files path)

  -- The comparison of two files of the same length.
  unfoldable pub compare_files : F.State → PathBuf → PathBuf → Result ApplyError LinkState
  compare_files files source link = and_then (read files source) λ source_bytes.
      and_then (read files link)
        λ link_bytes. ok (if source_bytes == link_bytes then matching_file else mismatch)

  -- What follows if the link does not point at the source.
  unfoldable pub classify_files : F.State → PathBuf → PathBuf → Result ApplyError LinkState
  classify_files files source link = and_then (metadata files source) λ source_meta.
      and_then (metadata files link) λ link_meta.
        if link_meta.is_dir
        then ok directory
        else if not source_meta.is_file || not link_meta.is_file
        then ok mismatch
        else if not (nat_eq source_meta.len link_meta.len)
        then ok mismatch
        else compare_files files source link

  unfoldable pub classify_link : F.State → PathBuf → PathBuf → Result ApplyError LinkState
  classify_link files source link =
      if links_to (F.read_link files link) source
      then ok points_at_source
      else classify_files files source link

  -- A link that points out of the directory of the apps is not touched.
  unfoldable pub verify_managed : F.State → PathBuf → PathBuf → Result ApplyError (Unit {0})
  verify_managed files link apps_dir = elim (F.read_link files link) [
    | ok actual ↦
        if starts_with_path actual apps_dir then ok tt else err (refusal link actual apps_dir)
    | err _ ↦ ok tt
  ]

  abbrev replaced : PathBuf → PathBuf → LinkState → DiskIo F (Unit {0})
  replaced source link points_at_source = pure tt
  replaced source link matching_file = remove_file F link >> symlink F source link
  replaced source link directory =
      fail (failed (symlink_failed link "a directory already exists; remove it manually and retry"))
  replaced source link mismatch = fail (
      failed (
        symlink_failed link
          "a file with different contents already exists; remove it manually and retry"))

  -- The cause of a failure that is not a file in the way.
  unfoldable pub failure_cause : F.State → PathBuf → IoError → String
  failure_cause files link e = elim e.kind [
    | missing ↦ elim (parent link) [
      | some above ↦
          if F.exists files above
          then e.message
          else "parent directory " <> (above <> " does not exist")
      | none ↦ e.message
    ]
    | already_exists ↦ e.message
    | other_kind ↦ e.message
  ]

  -- What follows the first attempt to make the link.
  unfoldable pub after_symlink : PathBuf → PathBuf → Result IoError (Unit {0}) → DiskIo F (Unit {0})
  after_symlink source link (ok _) = pure tt
  after_symlink source link (err e) = elim (is_already_exists e.kind) [
    | true ↦
        lift_reads (λ d. attempt (
          map_err (λ cause. symlink_failed link (display_apply_error cause))
            (classify_link d.files source link)))
        >>= replaced source link
    | false ↦ lift_reads (λ d. err (failed (symlink_failed link (failure_cause d.files link e))))
  ]

  unfoldable pub create_symlink : PathBuf → PathBuf → DiskIo F (Unit {0})
  create_symlink source link d =
      let (made, files) = F.symlink source link d.files in
      after_symlink source link made (record d { files = files })

  -- Whatever is at the path is removed, unless it is a link that is not ours.
  unfoldable pub remove_managed : PathBuf → PathBuf → DiskIo F (Unit {0})
  remove_managed apps_dir target = do
    present ← reads (λ d. F.occupied d.files target)
    when present (do
      lift_reads (λ d. attempt (verify_managed d.files target apps_dir))
      remove_file F target)

  unfoldable pub remove_all : PathBuf → List PathBuf → DiskIo F (Unit {0})
  remove_all apps_dir [] = pure tt
  remove_all apps_dir (target ∷ targets) = do
    remove_managed apps_dir target
    remove_all apps_dir targets

  unfoldable pub change_all : PathBuf → List (PathBuf × PathBuf) → DiskIo F (Unit {0})
  change_all apps_dir [] = pure tt
  change_all apps_dir ((target, source) ∷ changes) = do
    remove_managed apps_dir target
    create_symlink source target
    change_all apps_dir changes

  unfoldable pub create_all : List (PathBuf × PathBuf) → DiskIo F (Unit {0})
  create_all [] = pure tt
  create_all ((target, source) ∷ links) = do create_symlink source target; create_all links

  unfoldable pub reconcile_config_symlinks : PathBuf → SymlinkChanges PathBuf → DiskIo F (Unit {0})
  reconcile_config_symlinks apps_dir changes = do
    remove_all apps_dir changes.remove
    change_all apps_dir changes.change
    create_all changes.create
