-- ===== src/Tests/Diffs.antt =====
-- The theorems on differences, filters and the frontier at concrete inputs.
use deptool.Base.{
  ◌≡◌, refl, ◌↔◌, ◌<>◌, String, Bool, ◌&&◌, not, some, List, [], ◌∷◌, ok, filter, string_ord, ◌==◌,
  arith, any,
}
use deptool.BTreeMap.{BTreeMap, get, insert, retain, keys, contains_key, IsSorted}
use deptool.BTreeMap.Set.{collect}
use deptool.Types.{Oid, PathBuf}
use deptool.Store.Frontier.{frontier}
use deptool.Store.Frontier.Laws.{IsAncestry, IsFrontier, frontier-IsFrontier}
use deptool.Store.Refs.{HostRef, host_tracking_refs, tracking_loop, tracking_ref, get_commit_tree}
use deptool.Store.Refs.Tracked.{IsTracked, host_tracking_refs-IsTracked}
use deptool.Store.Repository.{get_name}
use deptool.Plan.Changes.{SystemDiff, is_rollback_safe, append, default}
use deptool.Plan.Diff.{diff_apps, diff_symlinks, diff_enabled}
use deptool.Plan.Apps.{app_change, get-diff_apps}
use deptool.Plan.Apps.Patch.{patch, patch-diff_apps, diff_apps-eq-nil_iff}
use deptool.Plan.Units.{diff_enabled_lem}
use deptool.Plan.Symlinks.{is_new, is_moved, diff_symlinks_lem}
use deptool.Plan.Symlinks.Relink.{relink, relink-diff_symlinks}
use deptool.Plan.Safety.{is_rollback_safe-append}
use deptool.Plan.Filter.{only, apply, from_limit}
use deptool.Plan.Filter.Laws.{IsFiltered, apply-IsFiltered, from_limit-comma}
use deptool.Tests.MemoryRepository.{memory_repository, example}

-- One app is removed, one is updated, one stays and one is added.
abbrev before : BTreeMap String Oid
before = ("api", "1") ∷ ("db", "2") ∷ ("web", "3") ∷ []

abbrev after : BTreeMap String Oid
after = ("cron", "5") ∷ ("db", "2") ∷ ("web", "4") ∷ []

before-IsSorted : IsSorted before
before-IsSorted = ((refl, (refl, tt)), ((refl, tt), (tt, tt)))

after-IsSorted : IsSorted after
after-IsSorted = ((refl, (refl, tt)), ((refl, tt), (tt, tt)))

patch-diff_apps_example : patch (diff_apps before after) before ≡ after
patch-diff_apps_example = patch-diff_apps before after before-IsSorted after-IsSorted

get-diff_apps_example :
    get "web" (diff_apps before after) ≡ app_change (get "web" before) (get "web" after)
get-diff_apps_example = get-diff_apps "web" before after before-IsSorted after-IsSorted

diff_apps-eq-nil_iff_example : (diff_apps before after ≡ []) ↔ (before ≡ after)
diff_apps-eq-nil_iff_example = diff_apps-eq-nil_iff before after before-IsSorted after-IsSorted

relink-diff_symlinks_example : relink (diff_symlinks before after) before ≡ after
relink-diff_symlinks_example = relink-diff_symlinks before after before-IsSorted after-IsSorted

diff_symlinks_lem_example : diff_symlinks before after ≡ record {
  create = retain (λ l _. is_new (get l before)) after;
  remove = filter (λ l. not (contains_key l after)) (keys before);
  change = retain (λ l s. is_moved (get l before) s) after;
}
diff_symlinks_lem_example = diff_symlinks_lem before after

diff_enabled_lem_example :
    diff_enabled (collect ("a" ∷ "b" ∷ [])) (collect ("b" ∷ "c" ∷ [])) ≡ record {
      enable =
          filter
            (λ n. not (contains_key n (collect ("a" ∷ "b" ∷ []))))
            (keys (collect ("b" ∷ "c" ∷ [])));
      restart =
          filter (λ n. contains_key n (collect ("a" ∷ "b" ∷ []))) (keys (collect ("b" ∷ "c" ∷ [])));
      disable =
          filter
            (λ n. not (contains_key n (collect ("b" ∷ "c" ∷ []))))
            (keys (collect ("a" ∷ "b" ∷ [])));
    }
diff_enabled_lem_example = diff_enabled_lem (collect ("a" ∷ "b" ∷ [])) (collect ("b" ∷ "c" ∷ []))

-- A change that creates a link.
abbrev linking : SystemDiff PathBuf
linking = record default {
  symlinks = record {
    create = ("/etc/app.conf", "/var/lib/deptool/apps/app/current/app.conf") ∷ [];
    remove = [];
    change = [];
  };
}

is_rollback_safe-append_example :
    is_rollback_safe (append default linking).0
    ≡ (is_rollback_safe {T = PathBuf} default && is_rollback_safe linking)
is_rollback_safe-append_example = is_rollback_safe-append default linking

apply-IsFiltered_example :
    IsFiltered (only ("db" ∷ "mail" ∷ [])) before (apply (only ("db" ∷ "mail" ∷ [])) before)
apply-IsFiltered_example = apply-IsFiltered (only ("db" ∷ "mail" ∷ [])) before before-IsSorted

from_limit-comma_example :
    from_limit ("a" ∷ "b,c" ∷ "d" ∷ []) ≡ from_limit (("a" <> ("," <> "b,c")) ∷ "d" ∷ [])
from_limit-comma_example = from_limit-comma "a" "b,c" ("d" ∷ [])

abbrev descends : Oid → Oid → Bool
descends a b = any (λ (c, d). c == a && d == b) example.ancestors

example_IsAncestry : IsAncestry memory_repository example descends
example_IsAncestry = record {
  answers = λ a b. refl;
  irrefl = λ a.
      ground
        (arith, string_ord.beq_iff "c0" a, string_ord.beq_iff "c1" a, string_ord.beq_iff "c1" "c0");
  trans = λ a b c h k.
      ground
        (arith, string_ord.beq_iff "c0" b, string_ord.beq_iff "c1" b, string_ord.beq_iff "c1" "c0");
}

frontier-IsFrontier_example :
    (r : List Oid) × (frontier memory_repository example ("c1" ∷ "c0" ∷ "c1" ∷ []) ≡ ok r)
    × IsFrontier memory_repository example descends example_IsAncestry ("c1" ∷ "c0" ∷ "c1" ∷ []) r
frontier-IsFrontier_example =
    frontier-IsFrontier memory_repository example descends example_IsAncestry
      ("c1" ∷ "c0" ∷ "c1" ∷ [])

abbrev web_ref : HostRef
web_ref = record { commit = "c0"; host_tree = "h0" }

test_tracking_refs :
    host_tracking_refs memory_repository example ("web" ∷ "mail" ∷ []) ≡ ok (("web", web_ref) ∷ [])
unfolding host_tracking_refs tracking_loop tracking_ref get_commit_tree get_name get insert
test_tracking_refs = refl

test_web_ref : get {K = String} "web" (("web", web_ref) ∷ []) ≡ some web_ref
unfolding get
test_web_ref = refl

host_tracking_refs-IsTracked_example : IsTracked memory_repository example "web" web_ref
host_tracking_refs-IsTracked_example =
    host_tracking_refs-IsTracked memory_repository example ("web" ∷ "mail" ∷ [])
      (("web", web_ref) ∷ []) test_tracking_refs "web" web_ref test_web_ref
