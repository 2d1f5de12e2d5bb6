-- ===== src/Driver/Container/Entries.antt =====
-- The mount table of a process: mountInfoEntry, parseMountInfoReader and what looks an entry up, of
-- pkg/driver/container_remount_linux.go.
use Prim.Native.Char.{Char, code}
use Prim.Native.String.{len}
use forks_seaweedfs_csi_driv.Common.{
  ℕ, ◌<>◌, ◌+◌, ◌-◌, ◌*◌, ◌%◌, String, Bool, true, false, ◌&&◌, ◌||◌, not, Option, none, some, List,
  [], ◌∷◌, ◌==◌, eqb, leb, if◌then◌else◌, member,
}
use forks_seaweedfs_csi_driv.Common.Chars.{char_of}
use forks_seaweedfs_csi_driv.Common.Text.{has_prefix, from_part, split, fields}
use forks_seaweedfs_csi_driv.Common.Failure.{Failure, Result, ok, err, failure}

-- A line of /proc/<pid>/mountinfo.
pub record Entry : Type 0 where
  pub device : String
  pub root : String
  pub mountpoint : String
  pub options : String
  pub fstype : String
  pub source : String

is_octal_digit : ℕ → Bool
is_octal_digit c = leb b'0' c && leb c b'7'

-- `(a-'0')<<6 | (b-'0')<<3 | (c-'0')` of bytes: the shifts drop what does not fit into eight bits.
octal_byte : ℕ → ℕ → ℕ → ℕ
octal_byte a b c = (64 * (a - b'0') + 8 * (b - b'0') + (c - b'0')) % 256

begins_escape : Char → Char → Char → Char → Bool
unfolding is_octal_digit
begins_escape slash a b c =
    eqb (code slash) b'\\'
    && (is_octal_digit (code a) && (is_octal_digit (code b) && is_octal_digit (code c)))

-- unescapeMountField. A text without a backslash goes through unchanged.
unfoldable pub unescape_mount_field : String → String
unfolding begins_escape octal_byte char_of
unescape_mount_field String.[] = String.[]
unescape_mount_field (String.◌∷◌ slash (String.◌∷◌ a (String.◌∷◌ b (String.◌∷◌ c rest)))) =
    let decoded =
      String.◌∷◌ (char_of (octal_byte (code a) (code b) (code c))) (unescape_mount_field rest) in
    let copied =
      String.◌∷◌ slash (unescape_mount_field (String.◌∷◌ a (String.◌∷◌ b (String.◌∷◌ c rest)))) in
    if begins_escape slash a b c then decoded else copied
unescape_mount_field (String.◌∷◌ c rest) = String.◌∷◌ c (unescape_mount_field rest)

-- The fields from the separator on, without it.
unfoldable pub behind_dash : List String → List String
behind_dash [] = []
behind_dash (f ∷ rest) = let later = behind_dash rest in if f == "-" then rest else later

-- The file system's type and its source; either is empty if the line has none.
unfoldable pub fstype_and_source : List String → String × String
fstype_and_source [] = (String.[], String.[])
fstype_and_source (fstype ∷ []) = (fstype, String.[])
fstype_and_source (fstype ∷ source ∷ rest) = (fstype, source)

-- id parent major:minor root mountpoint options [optional ...] - fstype source superoptions
unfoldable pub entry_from : List String → Option Entry
unfolding behind_dash fstype_and_source
entry_from (id ∷ parent ∷ device ∷ root ∷ mountpoint ∷ options ∷ more ∷ rest) =
    let (fstype, source) = fstype_and_source (behind_dash (more ∷ rest)) in
    some (record {
      device = device;
      root = unescape_mount_field root;
      mountpoint = unescape_mount_field mountpoint;
      options = options;
      fstype = fstype;
      source = source;
    })
entry_from _ = none

unfoldable pub keep_some {ℓ} : {A : Type ℓ} → Option A → List A → List A
keep_some none rest = rest
keep_some (some e) rest = e ∷ rest

unfoldable pub entries_of : List String → List Entry
unfolding entry_from keep_some
entries_of [] = []
entries_of (line ∷ lines) = keep_some (entry_from (fields line)) (entries_of lines)

unfoldable pub or_error {ℓ} : {A : Type ℓ} → Option Failure → A → Result A
or_error none a = ok a
or_error (some e) a = err e

-- parseMountInfoReader, for the lines that a bufio.Scanner hands over and the error it ends with.
unfoldable pub parse_mount_info_reader : List String → Option Failure → Result (List Entry)
unfolding entries_of or_error
parse_mount_info_reader lines failed = or_error failed (entries_of lines)

-- The `readOnly` method: one of the mount's options is `ro`.
unfoldable pub read_only : Entry → Bool
read_only e = member "ro" (split b',' e.options)

-- isFuseFS
unfoldable pub is_fuse_fs : String → Bool
is_fuse_fs fstype = has_prefix fstype "fuse" && not (fstype == "fusectl")

-- fuseSourcePath: the text from the slash of the first `:/` on, or none.
fuse_source_path : String → String
fuse_source_path source = elim (from_part ":/" source) [
  | some (String.◌∷◌ colon path) ↦ path
  | _ ↦ String.[]
]

-- sameFuseFilesystem
unfoldable pub same_fuse_filesystem : String → String → Bool
unfolding fuse_source_path
same_fuse_filesystem a b =
    if a == "" || b == ""
    then false
    else if a == b
    then true
    else not (fuse_source_path a == "") && fuse_source_path a == fuse_source_path b

unfoldable pub last_at : String → List Entry → Option Entry → Option Entry
last_at path [] top = top
last_at path (e ∷ entries) top = last_at path entries (if e.mountpoint == path then some e else top)

unfoldable pub found_at : String → Option Entry → Result Entry
found_at path none = err (failure ("no mount at " <> path))
found_at path (some e) = ok e

-- mountEntryAt, of the entries that the process has: the topmost mount at the path.
unfoldable pub mount_entry_at : List Entry → String → Result Entry
unfolding last_at found_at
mount_entry_at entries path = found_at path (last_at path entries none)

abbrev pub no_entry : Entry
no_entry = record {
  device = String.[];
  root = String.[];
  mountpoint = String.[];
  options = String.[];
  fstype = String.[];
  source = String.[];
}

unfoldable pub longest_at : String → List Entry → Entry → Entry
longest_at path [] best = best
longest_at path (e ∷ entries) best =
    longest_at path entries
      (if e.mountpoint == path && leb (len best.mountpoint) (len e.mountpoint) then e else best)

unfoldable pub device_of : String → Entry → Result String
device_of path best =
    if best.device == ""
    then err (failure ("no mount entry found for " <> path))
    else ok best.device

-- getMountDevice, of the entries that the driver has.
unfoldable pub get_mount_device : List Entry → String → Result String
unfolding longest_at device_of
get_mount_device entries path = device_of path (longest_at path entries no_entry)

-- findContainerMountsByDevice, of the entries that the container has.
unfoldable pub find_container_mounts_by_device : List Entry → String → List Entry
unfolding is_fuse_fs
find_container_mounts_by_device [] device = []
find_container_mounts_by_device (e ∷ entries) device =
    let rest = find_container_mounts_by_device entries device in
    if e.device == device && is_fuse_fs e.fstype then e ∷ rest else rest
