-- ===== src/Legacy/Copier.antt =====
-- packages/@twokeys/legacy-server/src/util/copy-contents-class.ts: the ContentCopier of the old
-- server. Its loops push onto an array; `mkdirp` is called for every folder at once, the calls end
-- in any order, and the promise of `mkdirs` is resolved by the one whose folder is the last of the
-- list. An order is a list of events: a call of `mkdirp` has ended, the next file is copied.
pub mod Lists
pub mod Schedules
pub mod Runs
mod Tests
use keys.Prelude.{
  Bool, true, false, Option, none, some, List, [], ◌∷◌, ◌++◌, String, snoc, Result, ok, throws,
  if◌then◌else◌,
}
use keys.Copier.{
  Segments, plain, folder, Folder, done, entry, FileTreeNode, FileTree, file, dir, end, node, same,
  Thrown, Disk, is_folder, Streams, target, made, copy_file,
}

-- `files.push(node)`
unfoldable pub push : FileTree → FileTreeNode → FileTree
push end n = node n end
push (node m rest) n = node m (push rest n)

-- The loop of `generateFileTree`, from the array that has been filled so far.
unfoldable pub generate : Segments → Folder → FileTree → FileTree
generate root done files = files
generate root (entry name (plain text) rest) files =
    generate root rest (push files (file (snoc root name)))
generate root (entry name (folder contents) rest) files =
    generate root rest (push files (dir (snoc root name) (generate (snoc root name) contents end)))

-- `nextDirs.forEach(dir => dirs.push(dir))`
unfoldable pub push_each : List Segments → List Segments → List Segments
push_each paths [] = paths
push_each paths (p ∷ ps) = push_each (snoc paths p) ps

-- The loop of `getDirsFromTree`.
unfoldable pub collect_dirs : FileTree → List Segments → List Segments
collect_dirs end dirs = dirs
collect_dirs (node (file path) rest) dirs = collect_dirs rest dirs
collect_dirs (node (dir path contents) rest) dirs =
    collect_dirs rest (push_each (snoc dirs path) (collect_dirs contents []))

-- The loop of `getFilesFromTree`.
unfoldable pub collect_files : FileTree → List Segments → List Segments
collect_files end files = files
collect_files (node (file path) rest) files = collect_files rest (snoc files path)
collect_files (node (dir path contents) rest) files =
    collect_files rest (push_each files (collect_files contents []))

pub data Event : Type 0 where
  finished : Segments → Event
  next_file : Event

-- Where `copyContents` is: it waits for the folders, copies the files that are left, has returned,
-- or has thrown.
pub data Phase : Type 0 where
  making : Phase
  copying : List Segments → Phase
  returned : Phase
  failed : Thrown → Phase

-- `dirs` are those that `mkdirp` was called for, `files` those to be copied.
pub record Copy : Type 0 where
  pub dirs : List Segments
  pub files : List Segments
  pub phase : Phase
  pub disk : Disk

-- `dir === dirs[dirs.length - 1]`
unfoldable pub is_last : List Segments → Segments → Bool
is_last [] p = false
is_last (d ∷ []) p = same p d
is_last (d ∷ e ∷ ds) p = is_last (e ∷ ds) p

-- The code after `await`, up to the next one: with no file left it returns.
unfoldable pub start_copying : List Segments → Phase
start_copying [] = returned
start_copying (f ∷ fs) = copying (f ∷ fs)

module _ (streams : Streams) (root destination : Segments) where
  -- The promise of `mkdirs` settles once: `resolve` and `reject` do nothing later.
  unfoldable pub settle : Bool → List Segments → Result Thrown (Unit {0}) → Phase → Phase
  settle last files (throws e) making = failed e
  settle last files (ok _) making = if last then start_copying files else making
  settle last files r (copying left) = copying left
  settle last files r returned = returned
  settle last files r (failed e) = failed e

  abbrev result_of : Segments → Result Thrown (Unit {0})
  result_of p = streams.makes (target streams root destination p)

  -- The `then` and `catch` of one `mkdirp`.
  unfoldable pub finish : Segments → Copy → Copy
  finish p c =
      if is_folder p c.dirs
      then record c {
        phase = settle (is_last c.dirs p) c.files (result_of p) c.phase;
        disk =
            made streams root destination (target streams root destination p) (result_of p) c.disk;
      }
      else c

  unfoldable pub after_file : List Segments → Result Thrown (Unit {0}) × Disk → Copy → Copy
  after_file left (ok _, d) c = record c { phase = start_copying left; disk = d }
  after_file left (throws e, d) c = record c { phase = failed e; disk = d }

  -- One turn of the loop over the files, up to the end of its `pipeline`.
  unfoldable pub copy_next : Phase → Copy → Copy
  copy_next (copying (f ∷ fs)) c = after_file fs (copy_file streams root destination f c.disk) c
  copy_next (copying []) c = c
  copy_next making c = c
  copy_next returned c = c
  copy_next (failed e) c = c

  unfoldable pub happen : Event → Copy → Copy
  happen (finished p) c = finish p c
  happen next_file c = copy_next c.phase c

  unfoldable pub run : List Event → Copy → Copy
  run [] c = c
  run (e ∷ es) c = run es (happen e c)

  -- `copyContents` up to its first `await` that waits for the disk: `contents` is what is in the root.
  unfoldable pub start : Folder → Disk → Copy
  start contents d = record {
    dirs = collect_dirs (generate root contents end) [];
    files = collect_files (generate root contents end) [];
    phase = making;
    disk = d;
  }
