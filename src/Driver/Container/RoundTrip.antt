-- ===== src/Driver/Container/RoundTrip.antt =====
-- What the kernel writes into /proc/<pid>/mountinfo, and that parseMountInfoReader of
-- pkg/driver/container_remount_linux.go reads it back.
use forks_seaweedfs_csi_driv.Common.{
  String, ◌≡◌, ◌≢◌, refl, ap, none, some, List, [], ◌∷◌, ◌++◌, map, All, All-append, arith, eq_iff,
}
use forks_seaweedfs_csi_driv.Common.Text.{fields, join}
use forks_seaweedfs_csi_driv.Common.Words.{IsWord, fields-join}
use forks_seaweedfs_csi_driv.Common.Failure.{ok}
use forks_seaweedfs_csi_driv.Driver.Container.Entries.{
  Entry, behind_dash, entry_from, entries_of, keep_some, parse_mount_info_reader, fstype_and_source,
  or_error,
}
use forks_seaweedfs_csi_driv.Driver.Container.Escapes.{
  IsPath, escape_mount_field, unescape-escape, escape-IsWord,
}

behind_dash-optional :
    (optional rest : List String)
    → All (λ f. f ≢ "-") optional
    → behind_dash (optional ++ "-" ∷ rest) ≡ rest
unfolding behind_dash
behind_dash-optional [] rest h = refl
behind_dash-optional (f ∷ optional) rest (h, hs) =
    ground (arith, eq_iff f "-", behind_dash-optional optional rest hs)

-- The fields of a line besides those of the entry.
pub record Line : Type 0 where
  pub id : String
  pub parent : String
  pub entry : Entry
  pub optional : List String
  pub super_options : String

-- As the kernel writes it: the root and the mount point are escaped.
unfoldable pub words_of : Line → List String
words_of l =
    l.id
    ∷ l.parent
    ∷ l.entry.device
    ∷ escape_mount_field l.entry.root
    ∷ escape_mount_field l.entry.mountpoint
    ∷ l.entry.options
    ∷ (l.optional ++ ("-" ∷ l.entry.fstype ∷ l.entry.source ∷ l.super_options ∷ []))

unfoldable pub print_line : Line → String
unfolding words_of
print_line l = join " " (words_of l)

-- The root and the mount point are any paths whose white space the kernel escapes; the others are
-- words, and no optional field is the separator.
pub record IsPrintable (l : Line) : Type 0 where
  pub id : IsWord l.id
  pub parent : IsWord l.parent
  pub device : IsWord l.entry.device
  pub root : IsPath l.entry.root
  pub mountpoint : IsPath l.entry.mountpoint
  pub options : IsWord l.entry.options
  pub optional : All IsWord l.optional
  pub no_dash : All (λ f. f ≢ "-") l.optional
  pub fstype : IsWord l.entry.fstype
  pub source : IsWord l.entry.source
  pub super_options : IsWord l.super_options

words_of-IsWord : (l : Line) → IsPrintable l → All IsWord (words_of l)
unfolding words_of
words_of-IsWord l p =
    let dash : IsWord "-" = (refl, λ e. cc) in
    let behind : All IsWord ("-" ∷ l.entry.fstype ∷ l.entry.source ∷ l.super_options ∷ []) =
      (dash, (p.fstype, (p.source, (p.super_options, tt)))) in
    let root = escape-IsWord l.entry.root p.root in
    let mountpoint = escape-IsWord l.entry.mountpoint p.mountpoint in
    let most = All-append IsWord l.optional _ p.optional behind in
    (p.id, (p.parent, (p.device, (root, (mountpoint, (p.options, most))))))

entry_from-cons :
    (l : Line) (more : String) (rest : List String)
    → behind_dash (more ∷ rest) ≡ l.entry.fstype ∷ l.entry.source ∷ l.super_options ∷ []
    → entry_from (
        l.id
        ∷ l.parent
        ∷ l.entry.device
        ∷ escape_mount_field l.entry.root
        ∷ escape_mount_field l.entry.mountpoint
        ∷ l.entry.options
        ∷ more
        ∷ rest)
      ≡ some l.entry
unfolding entry_from fstype_and_source
entry_from-cons l more rest e =
    rw (e, unescape-escape l.entry.root, unescape-escape l.entry.mountpoint)

entry_from-words_of : (l : Line) → IsPrintable l → entry_from (words_of l) ≡ some l.entry
unfolding words_of
entry_from-words_of l p = exposed l.optional (behind_dash-optional l.optional _ p.no_dash)
  where
    tail : List String
    tail = l.entry.fstype ∷ l.entry.source ∷ l.super_options ∷ []

    exposed :
        (optional : List String)
        → behind_dash (optional ++ "-" ∷ tail) ≡ tail
        → entry_from (
            l.id
            ∷ l.parent
            ∷ l.entry.device
            ∷ escape_mount_field l.entry.root
            ∷ escape_mount_field l.entry.mountpoint
            ∷ l.entry.options
            ∷ (optional ++ "-" ∷ tail))
          ≡ some l.entry
    exposed [] e = entry_from-cons l "-" tail e
    exposed (f ∷ optional) e = entry_from-cons l f (optional ++ "-" ∷ tail) e

entries_of-print :
    (ls : List Line) → All IsPrintable ls → entries_of (map print_line ls) ≡ map (λ l. l.entry) ls
unfolding entries_of keep_some print_line
entries_of-print [] h = refl
entries_of-print (l ∷ ls) (h, hs) =
    let read : fields (print_line l) ≡ words_of l =
      unfold words_of in fields-join l.id _ (words_of-IsWord l h) in
    rw (read, entry_from-words_of l h, entries_of-print ls hs)

-- Round trip: a table of mounts that is printed as the kernel prints /proc/<pid>/mountinfo, with the
-- blanks, tabs, newlines and backslashes of roots and mount points escaped in octal, is read back as
-- the same entries, as long as these paths are not empty and have no other white space. The other
-- fields are words without white space, and no optional field is a dash.
pub parse_mount_info-print :
    (ls : List Line)
    → All IsPrintable ls
    → parse_mount_info_reader (map print_line ls) none ≡ ok (map (λ l. l.entry) ls)
unfolding parse_mount_info_reader or_error
parse_mount_info-print ls h = ap ok (entries_of-print ls h)
