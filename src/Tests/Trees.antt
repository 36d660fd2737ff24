-- ===== src/Tests/Trees.antt =====
-- The theorem on the trees of a configuration directory, at a directory of hosts that also has a file.
use deptool.Base.{◌≡◌, refl, String, ◌<>◌, true, false, some, List, [], ◌∷◌, Result, ok}
use deptool.Types.{Oid, PathBuf}
use deptool.Error.{StoreError}
use deptool.FileSystem.{DirEntry}
use deptool.Store.Build.{Builder, build_entries, insert_entry, is_kept}
use deptool.Store.Build.Levels.{AreTrees, AreRegular, build_entries-AreTrees}
use deptool.Tests.MemoryRepository.{memory_repository, Memory, example}
use deptool.Tests.LinkFiles.{link_files, Nodes}

abbrev entry : String → DirEntry
entry name = record {
  path = "/c/" <> name;
  file_name = some name;
  entry_is_dir = true;
  entry_is_file = false;
  entry_is_symlink = false;
}

abbrev readme : DirEntry
readme = record (entry "README") { entry_is_dir = false; entry_is_file = true }

abbrev entries : List DirEntry
entries = readme ∷ entry "web" ∷ []

-- Each host directory has a tree.
abbrev walk : PathBuf → Memory → Result StoreError (Memory × Oid)
walk path m = ok (m, "h1")

abbrev nothing : Nodes
nothing p = deptool.Base.none

abbrev built : Builder
built = ("web", "h1", 16384) ∷ []

test_built :
    build_entries memory_repository link_files walk nothing 0 entries example []
    ≡ ok (example, built)
unfolding build_entries insert_entry is_kept deptool.Store.Build.build_named
    deptool.Store.Build.add_directory
test_built = refl

build_entries-AreTrees_example : AreTrees built × AreRegular entries
build_entries-AreTrees_example =
    build_entries-AreTrees memory_repository link_files walk nothing 0 entries example example []
      built refl tt test_built
