-- ===== src/Cmd/Tests/Disks.antt =====
-- An example of the command's work on a disk.
use Prim.Native.String.{◌++◌}
use gocharm.Base.{String, ◌≡◌, refl, sym, subst, inl, inr, List, [], ◌∷◌, Option, none, some}
use gocharm.Base.{Bool, true, false, not, ◌&&◌, ◌||◌, arith, In, Bool-cases, str_eq, str_eq_iff}
use gocharm.Base.{Act, ok, err, newf, pure, for_each}
use gocharm.Base.Decimal.{itoa, atoi, parse_int}
use gocharm.Base.Dict.{Dict, lookup, insert, lookup-insert}
use gocharm.Base.Paths.{join_path}
use gocharm.Base.Texts.{has_prefix, trim_space, cut_prefix}
use gocharm.Hook.Registry.{Unit₀}
use gocharm.Hook.State.{Files}
use gocharm.Cmd.Copied.{IsBelow, IsDisk, IsApart}
use gocharm.Cmd.Destination.{
  Tree, Build, allowed, is_allowed, is_member, main1, read_revision, write_revision, revision_path,
  can_clean, clean_destination, replace_charm,
}
use gocharm.Cmd.Revision.{IsTool, main1-read_revision}

abbrev has : Option String → Bool
has none = false
has (some c) = true

-- A disk on which nothing is ever removed.
abbrev Disk : Type 0
Disk = Dict String

abbrev copy_to : String → Option String → Act Disk Unit₀
copy_to b none w = (err (newf "no file" []), w)
copy_to b (some c) w = (ok tt, insert b c w)

abbrev disk_tree : Tree Disk
disk_tree = record {
  read_dir = λ d. pure none;
  begins_with = λ p s w. false;
  remove_all = λ p. pure tt;
  stat = λ p w. (ok (has (lookup p w)), w);
  copy = λ a b w. copy_to b (lookup a w) w;
  temp_dir = pure "/tmp";
}

abbrev disk_files : Files Disk
disk_files = record {
  mkdir_all = λ d. pure tt;
  write_file = λ p c w. (ok tt, insert p c w);
  read_file = λ p w. (ok (lookup p w), w);
}

abbrev on_disk : Disk → String → Option String
on_disk w p = lookup p w

disk_copies :
    (a b c : String) (w w' : Disk)
    → lookup a w ≡ some c
    → disk_tree.copy a b w ≡ (ok tt, w')
    → lookup b w' ≡ some c
disk_copies a b c w w' e h = ground (arith, lookup-insert b b c w, str_eq_iff b b)

disk_keeps :
    (b q : String) (found : Option String) (w : Disk)
    → ¬ (IsBelow b q)
    → lookup q (copy_to b found w).1 ≡ lookup q w
disk_keeps b q none w out = refl
disk_keeps b q (some c) w out = elim (Bool-cases (str_eq b q)) [
  | inl e ↦ absurd (out (inl ((str_eq_iff b q).0 e)))
  | inr e ↦ ground (arith, lookup-insert b q c w)
]

disk_tree-IsDisk : IsDisk disk_tree disk_files on_disk
disk_tree-IsDisk = record {
  reads = λ p w. refl;
  writes = λ p c w w' h. ground (arith, lookup-insert p p c w, str_eq_iff p p);
  makes = λ d q w. refl;
  lists = λ d q w. refl;
  stats = λ p q w. refl;
  there = λ p c w e no. ground arith;
  removes = λ p q w out. refl;
  copies = disk_copies;
  keeps = λ a b q w out. disk_keeps b q (lookup a w) w out;
}

abbrev go_tool : Build Disk
go_tool = record {
  getwd = pure "/";
  install = λ p. pure tt;
  import_pkg = λ p cwd. pure (record { import_path = "a.b/web"; dir = "/src/web" });
  build_charm = λ pkg d temp. pure tt;
}

all_true : (String → Bool) → List String → Bool
all_true f [] = true
all_true f (x ∷ xs) = let rest = all_true f xs in f x && rest

all_true-In :
    (f : String → Bool) (l : List String) (n : String) → all_true f l ≡ true → In n l → f n ≡ true
unfolding all_true
all_true-In f [] n h i = absurd i
all_true-In f (x ∷ l) n h (inl e) = subst (λ n. f n ≡ true) e (ground arith)
all_true-In f (x ∷ l) n h (inr i) = all_true-In f l n (ground arith) i

is_member-In : (n : String) (l : List String) → is_member n l ≡ true → In n l
is_member-In n [] h = absurd (ground arith)
is_member-In n (x ∷ l) h = elim (Bool-cases (str_eq n x)) [
  | inl e ↦ inl (sym ((str_eq_iff n x).0 e))
  | inr e ↦ inr (is_member-In n l (ground arith))
]

abbrev is_clear : String → String → Bool
is_clear p q = not (str_eq p q) && not (has_prefix (p ++ "/") q)

clear : (p q : String) → is_clear p q ≡ true → ¬ (IsBelow p q)
clear p q h (inl e) = ground (arith, str_eq_iff p q)
clear p q h (inr e) = ground arith

disk_tree-IsApart : IsApart disk_tree allowed "/tmp/charm" "/repo/web"
unfolding all_true has_prefix join_path
disk_tree-IsApart = record {
  removed = λ n ns w w' h i. ground arith;
  sources = λ n i. clear (join_path ("/repo/web" ∷ n ∷ [])) "/tmp/charm/revision" (
      all_true-In (λ n. is_clear (join_path ("/repo/web" ∷ n ∷ [])) "/tmp/charm/revision") allowed n
        refl i);
  targets = λ n i other. clear (join_path ("/repo/web" ∷ n ∷ [])) "/repo/web/revision" (
      let this =
        all_true-In
          (λ n.
            str_eq n "revision" || is_clear (join_path ("/repo/web" ∷ n ∷ [])) "/repo/web/revision")
          allowed n refl i in
      ground (arith, str_eq_iff n "revision"));
}

go_tool-IsTool : IsTool go_tool (λ d. "web") on_disk "web" "/repo/web/revision"
go_tool-IsTool = record {
  getwd = λ w. refl;
  install = λ p w. refl;
  import_pkg = λ p cwd w w' pkg h. (refl, ground arith);
}

abbrev old_disk : Disk
old_disk = ("/repo/web/revision", "41") ∷ []

abbrev new_disk : Disk
new_disk = ("/repo/web/revision", "42") ∷ ("/tmp/charm/revision", "42") ∷ []

disk_temp :
    (temp : String) (w w' : Disk)
    → disk_tree.temp_dir w ≡ (ok temp, w')
    → IsApart disk_tree allowed (join_path (temp ∷ "charm" ∷ [])) (join_path ("/repo" ∷ "web" ∷ []))
      × ¬ (IsBelow temp (join_path (join_path ("/repo" ∷ "web" ∷ []) ∷ "revision" ∷ [])))
unfolding join_path has_prefix
disk_temp temp w w' h =
    let is : "/tmp" ≡ temp = ground arith in
    subst
      (λ temp.
        IsApart disk_tree allowed (join_path (temp ∷ "charm" ∷ []))
          (join_path ("/repo" ∷ "web" ∷ []))
        × ¬ (IsBelow temp (join_path (join_path ("/repo" ∷ "web" ∷ []) ∷ "revision" ∷ []))))
      is (disk_tree-IsApart, clear "/tmp" "/repo/web/revision" refl)

main1-read_revision_example :
    read_revision disk_files "/repo/web" new_disk ≡ (ok (some 42), new_disk)
unfolding is_allowed main1 read_revision write_revision revision_path can_clean clean_destination
    replace_charm for_each lookup insert join_path itoa parse_int trim_space cut_prefix atoi
main1-read_revision_example =
    main1-read_revision disk_tree disk_files on_disk disk_tree-IsDisk go_tool (λ d. "web") "/repo"
      true allowed "web" "web" 41 old_disk new_disk go_tool-IsTool disk_temp
      (λ n h. is_member-In n allowed h) (omega arith) refl refl
