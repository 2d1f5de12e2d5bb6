-- ===== src/Mount/Flags/Tests.antt =====
-- What weed prints for -h, in short.
use forks_seaweedfs_csi_driv.Common.{◌≡◌, inl, refl, List, [], ◌∷◌, All, map}
use forks_seaweedfs_csi_driv.Common.Text.{join}
use forks_seaweedfs_csi_driv.Mount.Flags.Help.{
  is_stop, HelpLine, text_line, flag_line, print_line, IsHelpLine, parse_weed_mount_help,
  parse_weed_mount_help-print,
}

abbrev help : List HelpLine
help =
    text_line "Usage: weed mount"
    ∷ flag_line "dir" " string"
    ∷ text_line "    \tthe mount point"
    ∷ flag_line "map.uid" ""
    ∷ []

help_of :
    parse_weed_mount_help "Usage:\n  -dir string\n    \tthe mount point\n  -v\tlevel"
    ≡ "dir" ∷ "v" ∷ []
unfolding parse_weed_mount_help
help_of = refl

help-All : All IsHelpLine help
unfolding print_line is_stop
help-All = (
  record { of_kind = refl; one_piece = refl; fits = refl },
  (
    record { of_kind = (refl, λ e. cc, inl refl); one_piece = refl; fits = refl },
    (
      record { of_kind = refl; one_piece = refl; fits = refl },
      (record { of_kind = (refl, λ e. cc, tt); one_piece = refl; fits = refl }, tt),
    ),
  ),
)

parse_weed_mount_help-print_example :
    parse_weed_mount_help (join "\n" (map print_line help)) ≡ "dir" ∷ "map.uid" ∷ []
parse_weed_mount_help-print_example = parse_weed_mount_help-print help help-All
