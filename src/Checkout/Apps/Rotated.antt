-- ===== src/Checkout/Apps/Rotated.antt =====
-- src/checkout.rs: where the links of an app point after a checkout.
use deptool.Base.{
  ◌≡◌, ◌≢◌, refl, sym, ◌∙◌, ap, String, Bool, true, false, some, ok, not, string_ord, arith,
  map_err-eq-ok, ok-injective, Result-cases, inl, inr,
}
use deptool.Types.{PathBuf, join}
use deptool.Store.Repository.{Repository}
use deptool.FileSystem.{FileSystem}
use deptool.Io.{pure, reads, when, ◌>>=◌, ◌>>◌}
use deptool.Io.Keeps.{Keeps, bind-eq-ok, when-Keeps}
use deptool.Checkout.Disk.{Disk, DiskIo, remove_file, rename, symlink}
use deptool.Checkout.Apps.{points_at, rotate}
use deptool.Checkout.Links.Kept.{LinkLaws, link_at, link_on, remove_file-Keeps, symlink-Keeps}

-- None of the three links of an app is reached through another one.
pub record LinksApart (apart : PathBuf → PathBuf → Bool) (current next previous : PathBuf)
    : Type 0 where
  pub next_current : apart next current ≡ true
  pub current_next : apart current next ≡ true
  pub next_previous : apart next previous ≡ true
  pub previous_next : apart previous next ≡ true
  pub current_previous : apart current previous ≡ true

module _ {R : Repository} (F : FileSystem R) where
  -- `rename` moves a link, over whatever is at the new path, and leaves other paths alone.
  pub record RenameLaws (apart : PathBuf → PathBuf → Bool) : Type 0 where
    pub moved :
        (a b : PathBuf) (s : F.State)
        → (F.rename a b s).0 ≡ ok tt
        → link_at F (F.rename a b s).1 b ≡ link_at F s a
    pub others :
        (a b q : PathBuf) (s : F.State)
        → apart a q ≡ true
        → apart b q ≡ true
        → link_at F (F.rename a b s).1 q ≡ link_at F s q
    pub linked :
        (p target : PathBuf) (s : F.State) → link_at F s p ≡ some target → F.occupied s p ≡ true

  module _ {apart : PathBuf → PathBuf → Bool} (laws : LinkLaws F apart)
      (renames : RenameLaws apart) where
    rename-moved :
        (a b : PathBuf) (d : Disk F)
        → (rename F a b d).0 ≡ ok tt
        → link_on F b (rename F a b d).1 ≡ link_on F a d
    unfolding rename
    rename-moved a b d h = renames.moved a b d.files (map_err-eq-ok _ _ h)

    rename-Keeps :
        (a b q : PathBuf) → apart a q ≡ true → apart b q ≡ true → Keeps (link_on F q) (rename F a b)
    unfolding rename
    rename-Keeps a b q h k = record { same = λ d. renames.others a b q d.files h k }

    made_link :
        (target p : PathBuf) (d : Disk F)
        → (symlink F target p d).0 ≡ ok tt
        → link_on F p (symlink F target p d).1 ≡ some target
    unfolding symlink
    made_link target p d h = laws.symlink_made target p d.files (map_err-eq-ok _ _ h)

    module _ (current next previous : PathBuf) (sides : LinksApart apart current next previous)
        (prefix : String) where
      -- The rotation proper.
      abbrev turn : DiskIo F (Unit {0})
      turn = do
        stale ← reads (λ d. F.occupied d.files next)
        when stale (remove_file F next)
        symlink F prefix next
        deployed ← reads (λ d. F.occupied d.files current)
        when deployed (rename F current previous)
        rename F next current

      turn-previous :
          (d : Disk F) (b : Bool) (target : PathBuf)
          → b ≡ true
          → link_on F current d ≡ some target
          → (when b (rename F current previous) d).0 ≡ ok tt
          → link_on F previous (when b (rename F current previous) d).1 ≡ some target
      turn-previous d true target e h k = rename-moved current previous d k ∙ h
      turn-previous d false target e h k = cc

      pub turn_lem :
          (d : Disk F)
          → (turn d).0 ≡ ok tt
          → (link_on F current (turn d).1 ≡ some prefix)
            × ((target : PathBuf)
                → link_on F current d ≡ some target
                → link_on F previous (turn d).1 ≡ some target)
      unfolding reads
      turn_lem d h =
          let (stale, _, e1, h1) = bind-eq-ok (reads (λ x. F.occupied x.files next)) _ d h in
          let (_, _, e2, h2) = bind-eq-ok (when stale (remove_file F next)) _ _ h1 in
          let (_, made, e3, h3) = bind-eq-ok (symlink F prefix next) _ _ h2 in
          let d3 : Disk F = (symlink F prefix next (when stale (remove_file F next) d).1).1 in
          let (deployed, seen, e4, h4) =
            bind-eq-ok (reads (λ x. F.occupied x.files current)) _ d3 h3 in
          let (_, moved, e5, h5) = bind-eq-ok (when deployed (rename F current previous)) _ d3 h4 in
          let d4 : Disk F = (when deployed (rename F current previous) d3).1 in
          let e = e1 ∙ e2 ∙ e3 ∙ e4 ∙ e5 in
          let still : link_on F next d4 ≡ some prefix =
            (when-Keeps _ deployed _
                (rename-Keeps current previous next sides.current_next sides.previous_next)).same
              d3
            ∙ made_link prefix next _ made in
          let before : link_on F current d3 ≡ link_on F current d =
            (symlink-Keeps F laws current prefix next sides.next_current).same _
            ∙ (when-Keeps _ stale _ (remove_file-Keeps F laws current next sides.next_current)).same
                d in
          (
            ap (λ x. link_on F current x.1) e ∙ rename-moved next current d4 h5 ∙ still,
            λ target there.
                ap (λ x. link_on F previous x.1) e
                ∙ (rename-Keeps next current previous sides.next_previous
                      sides.current_previous).same
                    d4
                ∙ turn-previous d3 deployed target
                    (sym (ok-injective seen)
                      ∙ renames.linked current target d3.files (before ∙ there))
                    (before ∙ there) moved,
          )

    module _ (app_dir : PathBuf)
        (sides : LinksApart apart
          (join app_dir "current")
          (join app_dir "next")
          (join app_dir "previous"))
        (prefix : String) where
      -- How the links stand after a rotation from a disk.
      pub record IsRotated (before after : Disk F) : Type 0 where
        pub deployed : link_on F (join app_dir "current") after ≡ some prefix
        pub unchanged : link_on F (join app_dir "current") before ≡ some prefix → after ≡ before
        pub kept :
            (target : PathBuf)
            → link_on F (join app_dir "current") before ≡ some target
            → target ≢ prefix
            → link_on F (join app_dir "previous") after ≡ some target

      points_at-link :
          (d : Disk F)
          → points_at (F.read_link d.files (join app_dir "current")) prefix ≡ true
          → link_on F (join app_dir "current") d ≡ some prefix
      unfolding link_at
      points_at-link d h = elim (Result-cases (F.read_link d.files (join app_dir "current"))) [
        | inl (target, e) ↦
            rw (e, link_at)
              (ap some ((string_ord.beq_iff target prefix).0 (rw (e, points_at) at h)))
        | inr (x, e) ↦ cc (rw (e, points_at) at h)
      ]

      link-points_at :
          (d : Disk F)
          → link_on F (join app_dir "current") d ≡ some prefix
          → points_at (F.read_link d.files (join app_dir "current")) prefix ≡ true
      unfolding link_at
      link-points_at d h = ground (arith, string_ord.beq_iff prefix prefix)

      IsRotated-if :
          (d : Disk F) (b : Bool)
          → points_at (F.read_link d.files (join app_dir "current")) prefix ≡ b
          → (when
              (not b)
              (turn
                (join app_dir "current")
                (join app_dir "next")
                (join app_dir "previous")
                sides
                prefix)
              d).0
            ≡ ok tt
          → IsRotated d
              (when
                (not b)
                (turn
                  (join app_dir "current")
                  (join app_dir "next")
                  (join app_dir "previous")
                  sides
                  prefix)
                d).1
      unfolding pure
      IsRotated-if d true e h = record {
        deployed = points_at-link d e;
        unchanged = λ _. refl;
        kept = λ target there other. absurd (other (ground (arith, points_at-link d e)));
      }
      IsRotated-if d false e h =
          let (now, was) =
            turn_lem (join app_dir "current") (join app_dir "next") (join app_dir "previous") sides
              prefix d h in
          record {
            deployed = now;
            unchanged = λ there. cc (e, link-points_at d there);
            kept = λ target there _. was target there;
          }

      -- If `rotate` succeeds, under the laws of `std::fs` on links and renames and with the three
      -- links of the app apart, then `current` points to the version. Nothing has changed if it
      -- did before, and otherwise `previous` points to where `current` pointed, if that was a
      -- link.
      pub rotate-IsRotated :
          (d : Disk F)
          → (rotate F app_dir prefix d).0 ≡ ok tt
          → IsRotated d (rotate F app_dir prefix d).1
      unfolding rotate reads ◌>>=◌
      rotate-IsRotated d h =
          IsRotated-if d (points_at (F.read_link d.files (join app_dir "current")) prefix) refl h
