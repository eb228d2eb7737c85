-- ===== src/Copier/Trees.antt =====
-- The paths and the file trees of packages/@twokeys/addons/src/util/copy-contents.ts.
use keys.Prelude.{
  ℕ, suc, ◌+◌, length, Bool, true, false, List, [], ◌∷◌, ◌++◌, String, ◌≡◌, refl, ap, eq_refl, ◌||◌,
  ◌&&◌, any, all, map, snoc, arith,
}
use keys.Copier.{
  Segments, plain, folder, Folder, done, entry, generate_file_tree, get_dirs_from_tree,
  get_files_from_tree, relative, same, parent, prefixes, is_folder,
}

pub relative-append : (root ns : Segments) → relative root (root ++ ns) ≡ ns
unfolding relative
relative-append [] ns = refl
relative-append (a ∷ l) ns = rw (eq_refl a, relative-append l ns)

same_refl : (p : Segments) → same p p ≡ true
unfolding same
same_refl [] = refl
same_refl (a ∷ l) = rw (eq_refl a, same_refl l)

pub or_true : (b : Bool) → (b || true) ≡ true
or_true true = refl
or_true false = refl

pub parent-snoc : (p : Segments) (n : String) → parent (snoc p n) ≡ p
unfolding parent
parent-snoc [] n = refl
parent-snoc (a ∷ []) n = refl
parent-snoc (a ∷ b ∷ bs) n = ap (λ q. a ∷ q) (parent-snoc (b ∷ bs) n)

any-map :
    {A B : Type 0} (p : B → Bool) (f : A → B) (xs : List A)
    → any p (map f xs) ≡ any (λ x. p (f x)) xs
any-map p f [] = refl
any-map p f (x ∷ xs) = rw (any-map p f xs)

pub made_itself : (p : Segments) → is_folder p (prefixes p) ≡ true
unfolding prefixes same
made_itself [] = refl
made_itself (a ∷ l) =
    rw (any-map (same (a ∷ l)) (λ q. a ∷ q) (prefixes l), eq_refl a, made_itself l)

pub halves : (a b : Bool) → (a && b) ≡ true → (a ≡ true) × (b ≡ true)
halves true b h = (refl, h)
halves false b h = absurd (ground (arith, h))

pub both : {a b : Bool} → a ≡ true → b ≡ true → (a && b) ≡ true
both h k = rw (h, k)

pub all-append :
    {A : Type 0} (p : A → Bool) (xs ys : List A) → all p (xs ++ ys) ≡ (all p xs && all p ys)
all-append p [] ys = refl
all-append p (x ∷ xs) ys = ground (arith, all-append p xs ys)

length-append : {A : Type 0} (xs ys : List A) → length (xs ++ ys) ≡ length xs + length ys
length-append [] ys = ground arith
length-append (x ∷ xs) ys = ground (arith, length-append xs ys)

-- The files and folders in a folder, at all depths.
unfoldable pub size : Folder → ℕ
size done = 0
size (entry name (plain text) rest) = suc (size rest)
size (entry name (folder contents) rest) = suc (size contents + size rest)

-- The folders and the files that are listed are together as many as there are on the disk: the
-- total of the progress bar.
pub length-tree :
    (root : Segments) (c : Folder)
    → length (get_dirs_from_tree (generate_file_tree root c))
        + length (get_files_from_tree (generate_file_tree root c))
      ≡ size c
unfolding generate_file_tree get_dirs_from_tree get_files_from_tree size
length-tree root done = refl
length-tree root (entry name (plain text) rest) = ground (arith, length-tree root rest)
length-tree root (entry name (folder contents) rest) =
    let tree = generate_file_tree (snoc root name) contents in
    let later = generate_file_tree root rest in
    ground (
      arith,
      length-tree (snoc root name) contents,
      length-tree root rest,
      length-append (get_dirs_from_tree tree) (get_dirs_from_tree later),
      length-append (get_files_from_tree tree) (get_files_from_tree later),
    )
