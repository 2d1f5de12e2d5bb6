-- ===== src/Driver/Quota.antt =====
-- The initial quota of a collection: initialCollectionQuotaMB of pkg/driver/mounter.go.
use forks_seaweedfs_csi_driv.Common.{
  ℕ, ◌+◌, ◌*◌, ◌/◌, ◌%◌, ◌<◌, ◌≤◌, ◌≡◌, String, Option, none, some, leb, eqb, arith, if◌then◌else◌,
}
use forks_seaweedfs_csi_driv.Common.Decimal.{
  ℤ, pos, negsuc, int64_max, format_nat, format_int, parse_int, parse_int-format_int,
}

abbrev pub bytes_per_mib : ℕ
bytes_per_mib = 1024 * 1024

-- The capacity in mebibytes, rounded up.
unfoldable pub capacity_mb : ℕ → ℕ
capacity_mb capacity =
    let whole = capacity / bytes_per_mib in
    if eqb (capacity % bytes_per_mib) 0 then whole else whole + 1

quota_text : Option ℤ → String
unfolding capacity_mb
quota_text none = ""
quota_text (some (negsuc n)) = ""
quota_text (some (pos n)) = if leb n 1 then "" else format_nat (capacity_mb n)

-- initialCollectionQuotaMB
unfoldable pub initial_collection_quota_mb : String → String
unfolding quota_text
initial_collection_quota_mb capacity = quota_text (parse_int capacity)

-- The quota that a mount is started with, for a capacity of more than one byte that fits an int64 and
-- is printed into the volume context: the smallest number of mebibytes that holds the capacity.
pub initial_quota_holds :
    (capacity : ℕ)
    → 1 < capacity
    → capacity ≤ int64_max
    → (mb : ℕ) × (initial_collection_quota_mb (format_int (pos capacity)) ≡ format_nat mb)
      × (capacity ≤ mb * bytes_per_mib)
      × (mb * bytes_per_mib < capacity + bytes_per_mib)
unfolding initial_collection_quota_mb
initial_quota_holds capacity large small = (
  capacity_mb capacity,
  rw (parse_int-format_int (pos capacity) small) (ground (arith, large)),
  unfold capacity_mb in ground arith,
  unfold capacity_mb in ground arith,
)
