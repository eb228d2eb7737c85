-- ===== src/Copier.antt =====
-- packages/@twokeys/addons/src/util/copy-contents.ts: ContentCopier. A path is the list of its
-- segments from the root of the file system; node's `join` of it and a relative path appends.
pub mod Trees
pub mod Laws
mod Tests
use keys.Prelude.{
  Bool, true, false, Option, none, some, List, [], ◌∷◌, ◌++◌, String, ◌==◌, ◌||◌, any, map, snoc,
  Result, ok, throws, Exec, pure, throw, ◌>>=◌, ◌>>◌, if◌then◌else◌,
}

abbrev pub Segments : Type 0
Segments = List String

-- A folder on the disk, as `readdir` and `stat` show it.
mutual
  pub data Content : Type 0 where
    plain : String → Content
    folder : Folder → Content

  pub data Folder : Type 0 where
    done : Folder
    entry : String → Content → Folder → Folder

mutual
  pub data FileTreeNode : Type 0 where
    file : Segments → FileTreeNode
    dir : Segments → FileTree → FileTreeNode

  pub data FileTree : Type 0 where
    end : FileTree
    node : FileTreeNode → FileTree → FileTree

unfoldable pub generate_file_tree : Segments → Folder → FileTree
generate_file_tree root done = end
generate_file_tree root (entry name (plain text) rest) =
    node (file (snoc root name)) (generate_file_tree root rest)
generate_file_tree root (entry name (folder contents) rest) =
    node (dir (snoc root name) (generate_file_tree (snoc root name) contents))
      (generate_file_tree root rest)

unfoldable pub get_dirs_from_tree : FileTree → List Segments
get_dirs_from_tree end = []
get_dirs_from_tree (node (file path) rest) = get_dirs_from_tree rest
get_dirs_from_tree (node (dir path contents) rest) =
    path ∷ get_dirs_from_tree contents ++ get_dirs_from_tree rest

unfoldable pub get_files_from_tree : FileTree → List Segments
get_files_from_tree end = []
get_files_from_tree (node (file path) rest) = path ∷ get_files_from_tree rest
get_files_from_tree (node (dir path contents) rest) =
    get_files_from_tree contents ++ get_files_from_tree rest

-- `path.relative`, with ".." for each folder that is left.
unfoldable pub relative : Segments → Segments → Segments
relative [] to = to
relative (a ∷ l) [] = ".." ∷ relative l []
relative (a ∷ l) (b ∷ bs) =
    let below = relative l bs in if a == b then below else map (λ _. "..") (a ∷ l) ++ b ∷ bs

unfoldable pub same : Segments → Segments → Bool
same [] [] = true
same [] (b ∷ bs) = false
same (a ∷ l) [] = false
same (a ∷ l) (b ∷ bs) = let rest = same l bs in if a == b then rest else false

-- The folder that a path lies in.
unfoldable pub parent : Segments → Segments
parent [] = []
parent (a ∷ []) = []
parent (a ∷ b ∷ bs) = a ∷ parent (b ∷ bs)

-- The folders above a path, and it: what `mkdirp` makes.
unfoldable pub prefixes : Segments → List Segments
prefixes [] = [] ∷ []
prefixes (a ∷ l) = [] ∷ map (λ p. a ∷ p) (prefixes l)

pub data Thrown : Type 0 where
  enoent : Segments → Thrown
  foreign : Thrown

-- The side that is copied to: its folders, and the files that have been written, in order.
pub record Disk : Type 0 where
  pub folders : List Segments
  pub written : List Segments

abbrev pub is_folder : Segments → List Segments → Bool
is_folder p = any (same p)

-- Whether making a folder, and the streams from one file to another, succeed: `writes` is asked
-- only once the file could be opened.
pub record Streams : Type 0 where
  pub makes : Segments → Result Thrown (Unit {0})
  pub writes : Segments → Segments → Result Thrown (Unit {0})

module _ (streams : Streams) (root destination : Segments) where
  -- `path.join(this.destination, path.relative(this.root, p))`
  abbrev pub target : Segments → Segments
  target p = destination ++ relative root p

  abbrev pub made : Segments → Result Thrown (Unit {0}) → Disk → Disk
  made p (throws e) d = d
  made p (ok _) d = record d { folders = prefixes p ++ d.folders }

  -- `Promise.all`: every folder is tried, and the first failure is reported.
  unfoldable pub mkdirs : List Segments → Exec Thrown Disk Unit
  mkdirs [] d = (ok tt, d)
  mkdirs (p ∷ ps) d =
      let later = mkdirs ps (made (target p) (streams.makes (target p)) d) in
      (elim (streams.makes (target p)) [ ok _ ↦ later.0 | throws e ↦ throws e ], later.1)

  abbrev pub wrote : Segments → Result Thrown (Unit {0}) → Exec Thrown Disk Unit
  wrote p (throws e) d = (throws e, d)
  wrote p (ok _) d = (ok tt, record d { written = snoc d.written p })

  -- A file can only be opened in a folder that exists.
  unfoldable pub copy_file : Segments → Exec Thrown Disk Unit
  copy_file from d =
      if is_folder (parent (target from)) d.folders
      then wrote (target from) (streams.writes from (target from)) d
      else (throws (enoent (target from)), d)

  unfoldable pub copy_files : List Segments → Exec Thrown Disk Unit
  copy_files [] = pure tt
  copy_files (f ∷ fs) = copy_file f >> copy_files fs

  -- `source` is what reading the root gives.
  unfoldable pub copy_contents : Result Thrown Folder → Exec Thrown Disk Unit
  copy_contents (throws e) = throw e
  copy_contents (ok contents) =
      mkdirs (get_dirs_from_tree (generate_file_tree root contents))
      >> copy_files (get_files_from_tree (generate_file_tree root contents))
