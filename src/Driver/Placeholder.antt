-- ===== src/Driver/Placeholder.antt =====
-- src/metal-driver-placeholder/operator_agent.cpp: the program that stands for an operator on the
-- host. What it reads from `/proc`, from files and from its input are arguments.
pub mod Rounds
pub mod Talk
pub mod Mounts
use metal_fs.Base.{
  ℕ, Bool, true, false, not, ◌&&◌, Option, none, some, List, [], ◌∷◌, ◌++◌, ltb, ◌==◌,
  if◌then◌else◌, length,
}
use metal_fs.Driver.Combined.{Text, starts_with, is_empty}
use metal_fs.Driver.AgentSource.{
  Request, Response, Message, processing_request, processing_response,
}
use metal_fs.Fs.Directory.{strncmp_eq}

-- The variables of the processing loop: what `fread` will return and whether `feof` then holds, what
-- was read last, the last response, and the messages sent and received and the sizes written, the last
-- one first.
pub record Client : Type 0 where
  pub reads : List Request
  pub chunk : Request
  pub response : Response
  pub log : List Message
  pub written : List ℕ

-- Behind its end, reading gives nothing.
abbrev pub next_read : List Request → Request × List Request
next_read [] = (record { size = 0; eof = true }, [])
next_read (r ∷ rs) = (r, rs)

-- `processingResponse.size()`, which is 0 where it is not set.
abbrev pub size_of : Response → ℕ
size_of x = elim x.size [ none ↦ 0 | some n ↦ n ]

abbrev pub write_output : (has_output : Bool) → Client → Client
write_output has_output c = record c {
  written =
      if not (size_of c.response == 0) && has_output
      then size_of c.response ∷ c.written
      else c.written;
}

abbrev pub tell_server : Client → Client
tell_server c = record c {
  log = if c.response.eof then c.log else processing_request c.chunk ∷ c.log;
}

-- A response from the server.
abbrev pub hear : Response → Client → Client
hear x c = record c { response = x; log = processing_response x ∷ c.log }

-- `fread` and `feof`, if the test holds.
abbrev pub read_if : Bool → Client → Client
read_if true c = record c { reads = (next_read c.reads).1; chunk = (next_read c.reads).0 }
read_if false c = c

-- The loop, with the responses that the server sends: none where the connection is lost first.
unfoldable pub process_loop :
    (has_input has_output : Bool) → (responses : List Response) → Client → Option Client
process_loop has_input has_output [] c =
    if c.response.eof then some (write_output has_output c) else none
process_loop has_input has_output (x ∷ xs) c =
    let rest =
      process_loop has_input has_output xs (
        hear x
          (read_if (has_input && not c.chunk.eof) (write_output has_output (tell_server c)))) in
    if c.response.eof then some (write_output has_output c) else rest

-- From the first read on; `processingResponse` starts with the values of a new message.
unfoldable pub run_client :
    (has_input has_output : Bool)
    → (reads : List Request) → (responses : List Response) → Option Client
unfolding process_loop
run_client has_input has_output reads responses =
    let c : Client = record {
      reads = reads;
      chunk = record { size = 0; eof = false };
      response = record { eof = false; size = none };
      log = [];
      written = [];
    } in
    process_loop has_input has_output responses (read_if has_input c)

-- The loop of `getMountPointOfFilesystem` over the directories of the mounts.
unfoldable pub find_mount : (path : Text) → (result : Text) → (longest : ℕ) → List Text → Text × ℕ
unfolding starts_with
find_mount path result longest [] = (result, longest)
find_mount path result longest (dir ∷ dirs) =
    let skip = find_mount path result longest dirs in
    let take = find_mount path dir (length dir) dirs in
    if ltb (length path) (length dir)
    then skip
    else if ltb (length dir) longest
    then skip
    else if starts_with dir path
    then take
    else skip

-- None where the mount point could not be determined.
unfoldable pub mount_point_of : (path : Text) → (mounts : List Text) → Option Text
unfolding find_mount
mount_point_of path mounts =
    let (result, longest) = find_mount path [] 0 mounts in
    if longest == 0 then none else some result

-- A `ConnectedFile`.
pub record ConnectedFile : Type 0 where
  pub path : Text
  pub pid : ℕ
  pub is_metal_file : Bool

-- `strncmp(a, b, min(strlen(a), strlen(b))) == 0`, in which the shorter text may be either.
unfoldable pub agree : Text → Text → Bool
agree [] path = true
agree (c ∷ prefix) [] = true
agree (c ∷ prefix) (d ∷ path) = (c == d) && agree prefix path

-- What follows the prefix without its last byte; none where that is behind the end of the text.
abbrev pub after_but_last : Text → Text → Option Text
after_but_last [] path = some path
after_but_last (c ∷ []) path = some path
after_but_last (c ∷ d ∷ prefix) [] = none
after_but_last (c ∷ d ∷ prefix) (x ∷ path) = after_but_last (d ∷ prefix) path

abbrev pub null_name : Text
null_name = 36 ∷ 78 ∷ 85 ∷ 76 ∷ 76 ∷ []

abbrev pub dev_null : Text
dev_null = 47 ∷ 100 ∷ 101 ∷ 118 ∷ 47 ∷ 110 ∷ 117 ∷ 108 ∷ 108 ∷ []

abbrev pub operators_name : Text
operators_name = 47 ∷ 111 ∷ 112 ∷ 101 ∷ 114 ∷ 97 ∷ 116 ∷ 111 ∷ 114 ∷ 115 ∷ 47 ∷ []

-- The name in the file system, empty for another file; none where the copy starts behind the end.
unfoldable pub internal_filename : (mountpoint fd_file : Text) → Option Text
unfolding agree
internal_filename mountpoint fd_file =
    if agree (mountpoint ++ 47 ∷ []) fd_file
    then after_but_last (mountpoint ++ 47 ∷ []) fd_file
    else some []

-- For a file that is there.
abbrev pub connected_file : (fd_file internal : Text) → ConnectedFile
connected_file fd_file internal =
    if not (is_empty internal)
    then record { path = internal; pid = 0; is_metal_file = true }
    else if strncmp_eq 9 dev_null fd_file
    then record { path = null_name; pid = 0; is_metal_file = true }
    else record { path = fd_file; pid = 0; is_metal_file = false }

abbrev pub no_file : ConnectedFile
no_file = record { path = []; pid = 0; is_metal_file = false }

-- For a pipe, with the process at its other end.
unfoldable pub connected_process : (mountpoint : Text) → ConnectedFile → ConnectedFile
unfolding agree
connected_process mountpoint process =
    if is_empty process.path
    then no_file
    else if agree (mountpoint ++ operators_name) process.path
    then process
    else record process { pid = 0 }

-- `determineProcessOrFileConnectedToStandardFileDescriptor`
unfoldable pub connected_to :
    (mountpoint fd_file : Text) → (is_there : Bool) → ConnectedFile → Option ConnectedFile
unfolding internal_filename connected_process
connected_to mountpoint fd_file is_there process =
    if is_there
    then elim (internal_filename mountpoint fd_file) [
      | none ↦ none
      | some internal ↦ some (connected_file fd_file internal)
    ]
    else some (connected_process mountpoint process)
