-- ===== src/Tests/Links.antt =====
-- The theorems on links, at an app whose link `current` moves from `v1` to `v2`, and at a directory of
-- units of which one is removed and one is added.
use deptool.Base.{
  inl, ◌≡◌, ap, refl, sym, ◌∙◌, subst, ok-injective, true, false, none, some, [], ◌∷◌, ok,
  string_ord,
}
use deptool.BTreeMap.{get, is_some}
use deptool.Types.{PathBuf, parent, components, ends_with_slash, join, starts_with_path}
use deptool.Checkout.Disk.{Disk}
use deptool.Checkout.Apps.{rotate}
use deptool.Checkout.Apps.Rotated.{LinksApart, IsRotated, rotate-IsRotated}
use deptool.Checkout.Links.{Links, reconcile_managed_symlinks, collect_managed_symlinks}
use deptool.Checkout.Links.Kept.{link_at}
use deptool.Checkout.Links.Removed.{AreMutuallyApart, RemovedAreApart, AreGone}
use deptool.Checkout.Links.Reconciled.{AreMade, reconcile-IsReconciled}
use deptool.Checkout.ConfigLinks.{reconcile_config_symlinks}
use deptool.Checkout.ConfigLinks.Foreign.{reconcile-keeps_foreign}
use deptool.Checkout.Gc.{kept, gc_app_dir}
use deptool.Checkout.Gc.Kept.{AreSeparate, gc_app_dir-keeps}
use deptool.Plan.Changes.{SymlinkChanges}
use deptool.Tests.LinkFiles.{
  Nodes, link, directory, put, removed-apart, link_files, apart, apart_comm, link_laws, rename_laws,
}

abbrev app_dir : PathBuf
app_dir = "/apps/a"

abbrev empty : Nodes
empty p = none

abbrev disk : Nodes → Disk link_files
disk nodes = record { files = nodes; lines = [] }

abbrev deployed : Disk link_files
deployed = disk (put "/apps/a/current" (some (link "v1")) empty)

app_links :
    LinksApart apart (join app_dir "current") (join app_dir "next") (join app_dir "previous")
unfolding join
app_links = record {
  next_current = refl;
  current_next = refl;
  next_previous = refl;
  previous_next = refl;
  current_previous = refl;
}

test_rotates : (rotate link_files app_dir "v2" deployed).0 ≡ ok tt
unfolding rotate join deptool.Io.pure deptool.Io.fail deptool.Io.lift deptool.Io.reads
    deptool.Io.lift_reads deptool.Io.modify deptool.Io.◌>>=◌ deptool.Io.try deptool.Io.with_error
    deptool.Checkout.Disk.io_failed deptool.Checkout.Disk.removal_failed deptool.Checkout.Disk.log
    deptool.Checkout.Disk.create_dir_all deptool.Checkout.Disk.remove_dir_all
    deptool.Checkout.Disk.remove_file deptool.Checkout.Disk.rename
    deptool.Checkout.Disk.set_permissions deptool.Checkout.Disk.symlink
test_rotates = refl

rotate-IsRotated_example :
    IsRotated link_files link_laws rename_laws app_dir app_links "v2" deployed
      (rotate link_files app_dir "v2" deployed).1
rotate-IsRotated_example =
    rotate-IsRotated link_files link_laws rename_laws app_dir app_links "v2" deployed test_rotates

abbrev foreign : Disk link_files
foreign = disk (
    put "/etc/motd" (some (link "/usr/share/motd"))
      (put "/etc/old" (some (link "/apps/a/current/old")) empty))

abbrev changes : SymlinkChanges PathBuf
changes = record {
  remove = "/etc/old" ∷ "/etc/motd" ∷ [];
  change = [];
  create = ("/etc/new", "/apps/a/current/new") ∷ [];
}

test_foreign : starts_with_path "/usr/share/motd" "/apps" ≡ false
unfolding starts_with_path
test_foreign = refl

test_there : link_at link_files foreign.files "/etc/motd" ≡ some "/usr/share/motd"
unfolding link_at
test_there = refl

reconcile-keeps_foreign_example :
    link_at link_files
      (reconcile_config_symlinks link_files "/apps" changes foreign).1.files
      "/etc/motd"
    ≡ some "/usr/share/motd"
reconcile-keeps_foreign_example =
    reconcile-keeps_foreign link_files link_laws "/etc/motd"
      (λ files target there. rename_laws.linked "/etc/motd" target files there) "/apps"
      "/usr/share/motd" test_foreign changes foreign ((λ x. refl), ((λ x. sym x), tt)) tt (refl, tt)
      test_there

abbrev linked_units : Disk link_files
linked_units = disk (
    put "/u/a.service" (some (link "/apps/a/current/systemd/a.service"))
      (put "/u" (some directory) empty))

abbrev desired : Links
desired = ("b.service", "/apps/a/current/systemd/b.service") ∷ []

abbrev reconciled : Disk link_files
reconciled = (reconcile_managed_symlinks link_files desired "/apps" "/u" linked_units).1

test_reconciles :
    (reconcile_managed_symlinks link_files desired "/apps" "/u" linked_units).0 ≡ ok tt
unfolding deptool.Checkout.Links.reconcile_managed_symlinks deptool.Io.◌>>=◌ deptool.Io.lift_reads
    collect_managed_symlinks deptool.Checkout.Links.collect_into
    deptool.Checkout.Links.read_dir_if_exists deptool.Checkout.Links.collect_entries
    deptool.Checkout.Links.collect_entry deptool.Checkout.Links.read_link
    deptool.Checkout.Links.note_link deptool.Checkout.Links.points_through_current
    deptool.Types.strip_prefix deptool.Checkout.Links.remove_links deptool.BTreeMap.insert get
    deptool.Checkout.Links.remove_link deptool.Checkout.Disk.remove_file
    deptool.Checkout.Disk.create_dir_all deptool.Checkout.Disk.io_failed
    deptool.Checkout.Disk.removal_failed deptool.Checkout.Disk.set_permissions
    deptool.Checkout.Disk.symlink deptool.Checkout.Links.create_managed_dir
    deptool.Checkout.Links.open_levels deptool.Checkout.Links.prune_empty_dirs
    deptool.Checkout.Links.prune_levels deptool.Checkout.Links.try_remove_dir
    deptool.Checkout.Links.write_link deptool.Checkout.Links.write_links deptool.Io.fail
    deptool.Io.pure deptool.Io.reads deptool.Types.components deptool.Types.ends_with_slash join
    deptool.Types.parent starts_with_path
test_reconciles = refl

abbrev found : Links
found = ("a.service", "/apps/a/current/systemd/a.service") ∷ []

test_found : collect_managed_symlinks link_files linked_units.files "/apps" "/u" ≡ ok found
unfolding deptool.Io.◌>>=◌ deptool.Io.lift_reads collect_managed_symlinks
    deptool.Checkout.Links.collect_into deptool.Checkout.Links.read_dir_if_exists
    deptool.Checkout.Links.collect_entries deptool.Checkout.Links.collect_entry
    deptool.Checkout.Links.read_link deptool.Checkout.Links.note_link
    deptool.Checkout.Links.points_through_current deptool.Types.strip_prefix
    deptool.Checkout.Links.remove_links deptool.BTreeMap.insert get
    deptool.Checkout.Links.remove_link deptool.Checkout.Disk.remove_file
    deptool.Checkout.Disk.create_dir_all deptool.Checkout.Disk.io_failed
    deptool.Checkout.Disk.removal_failed deptool.Checkout.Disk.set_permissions
    deptool.Checkout.Disk.symlink deptool.Checkout.Links.create_managed_dir
    deptool.Checkout.Links.open_levels deptool.Checkout.Links.prune_empty_dirs
    deptool.Checkout.Links.prune_levels deptool.Checkout.Links.try_remove_dir
    deptool.Checkout.Links.write_link deptool.Checkout.Links.write_links deptool.Io.fail
    deptool.Io.pure deptool.Io.reads deptool.Types.components deptool.Types.ends_with_slash join
    deptool.Types.parent starts_with_path
test_found = refl

test_plain : ends_with_slash "/u" ≡ false
unfolding ends_with_slash
test_plain = refl

test_listed :
    AreMutuallyApart link_files link_laws "/u" found
    × RemovedAreApart link_files link_laws "/u" desired found
unfolding join ends_with_slash get
test_listed = ((tt, tt), ((λ x. (refl, tt)), tt))

reconcile-IsReconciled_example :
    (actual : Links) × (collect_managed_symlinks link_files linked_units.files "/apps" "/u"
      ≡ ok actual)
    × AreMade link_files link_laws apart_comm "/u" reconciled desired
    × AreGone link_files link_laws "/u" reconciled desired actual
reconcile-IsReconciled_example =
    reconcile-IsReconciled link_files link_laws apart_comm "/u" test_plain refl desired "/apps"
      linked_units (refl, tt) (tt, tt)
      (λ actual e.
        subst
          (λ x.
            AreMutuallyApart link_files link_laws "/u" x
            × RemovedAreApart link_files link_laws "/u" desired x)
          (ok-injective (sym test_found ∙ e)) test_listed)
      test_reconciles

test_parent : parent "/u/a.service" ≡ some "/u"
unfolding parent components join ends_with_slash
test_parent = refl

test_parent-relative : parent "a/b.d/c" ≡ some "a/b.d"
unfolding parent components join ends_with_slash
test_parent-relative = refl

abbrev versions : Disk link_files
versions = disk (
    put "/apps/a/v1" (some directory) (
      put "/apps/a/v2" (some directory)
        (put "/apps/a/current" (some (link "v2")) (put "/apps/a" (some directory) empty))))

-- The older version is removed, and the one that `current` points to stays.
test_old-removed :
    link_files.exists (gc_app_dir link_files "/apps/a" versions).1.files "/apps/a/v1" ≡ false
unfolding gc_app_dir deptool.Checkout.Gc.kept deptool.Io.◌>>=◌ deptool.Io.reads
    deptool.Checkout.Gc.gc_entries join deptool.Checkout.Gc.remove_old deptool.Checkout.Disk.log
    deptool.Io.modify deptool.Io.pure
test_old-removed = refl

test_current : link_files.read_link versions.files (join "/apps/a" "current") ≡ ok "v2"
unfolding join ends_with_slash
test_current = refl

test_target : "/apps/a/v2" ≡ join "/apps/a" "v2"
unfolding join ends_with_slash
test_target = refl

removes :
    (r p : PathBuf) (s : Nodes)
    → apart r p ≡ true
    → link_files.exists (link_files.remove_dir_all r s).1 p ≡ link_files.exists s p
removes r p s h = ap is_some (removed-apart r p (s r) s h)

gc_app_dir-keeps_example :
    link_files.exists (gc_app_dir link_files "/apps/a" versions).1.files "/apps/a/v2"
    ≡ link_files.exists versions.files "/apps/a/v2"
gc_app_dir-keeps_example =
    gc_app_dir-keeps link_files apart removes "/apps/a/v2" "/apps/a" versions "v2"
      (inl test_current) test_target
      (λ entries e.
        subst (AreSeparate link_files apart removes "/apps/a/v2") (ok-injective e)
          ((λ x. refl), ((λ x. sym x), tt)))
