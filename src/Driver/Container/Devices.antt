-- ===== src/Driver/Container/Devices.antt =====
-- getMountDevice and mountEntryAt of pkg/driver/container_remount_linux.go look up the same mount.
use Prim.Native.String.{len}
use forks_seaweedfs_csi_driv.Common.{
  String, ◌<>◌, ◌≡◌, refl, ◌∙◌, ap, true, Option, none, some, inl, inr, List, [], ◌∷◌, ◌==◌, leb,
  if◌then◌else◌, Bool-cases, eq_iff, arith,
}
use forks_seaweedfs_csi_driv.Common.Failure.{failure, Result, ok, err}
use forks_seaweedfs_csi_driv.Driver.Container.Entries.{
  Entry, no_entry, last_at, longest_at, found_at, device_of, mount_entry_at, get_mount_device,
}

abbrev best_of : Option Entry → Entry
best_of none = no_entry
best_of (some e) = e

abbrev IsAt : String → Option Entry → Type 0
IsAt path none = Unit
IsAt path (some e) = e.mountpoint ≡ path

no_longer :
    (path : String) (top : Option Entry) (e : Entry)
    → IsAt path top
    → e.mountpoint ≡ path
    → leb (len (best_of top).mountpoint) (len e.mountpoint) ≡ true
no_longer path none e h k = ground arith
no_longer path (some t) e h k = rw (h, k) (ground arith)

longest_at-last_at :
    (path : String) (entries : List Entry) (top : Option Entry)
    → IsAt path top
    → longest_at path entries (best_of top) ≡ best_of (last_at path entries top)
unfolding longest_at last_at
longest_at-last_at path [] top h = refl
longest_at-last_at path (e ∷ entries) top h = elim (Bool-cases (e.mountpoint == path)) [
  | inl same ↦
      let at : e.mountpoint ≡ path = (eq_iff _ _).0 same in
      rw (same, no_longer path top e h at) (longest_at-last_at path entries (some e) at)
  | inr other ↦ rw other (longest_at-last_at path entries top h)
]

-- The device of the mount that was found; an entry with an empty device counts as none.
abbrev pub device_at : String → Result Entry → Result String
device_at path (ok e) =
    if e.device == "" then err (failure ("no mount entry found for " <> path)) else ok e.device
device_at path (err f) = err (failure ("no mount entry found for " <> path))

found_at-device :
    (path : String) (o : Option Entry)
    → device_of path (best_of o) ≡ device_at path (found_at path o)
unfolding device_of found_at
found_at-device path none = refl
found_at-device path (some e) = refl

-- getMountDevice, which looks for the longest mount point, and mountEntryAt, which takes the last
-- entry, agree on every mount table: the device of the one is that of the entry of the other, and the
-- one fails when the other does or the entry has no device.
pub get_mount_device-mount_entry_at :
    (entries : List Entry) (path : String)
    → get_mount_device entries path ≡ device_at path (mount_entry_at entries path)
unfolding get_mount_device mount_entry_at
get_mount_device-mount_entry_at entries path =
    ap (device_of path) (longest_at-last_at path entries none tt)
    ∙ found_at-device path (last_at path entries none)
