-- ===== src/SecItem/Tests.antt =====
-- SecItems on concrete octets.
use python_nss_ng.Prelude.{true, none, some, [], ◌≡◌, ◌↔◌, ◌⊎◌, refl, arith, pos, negsuc, codes}
use python_nss_ng.SecItem.{
  eq, lt, gt, SecItem_richcompare, buffer, subscript_index, subscript_slice, slice_loop,
  index_error, SecItem_item,
}
use python_nss_ng.SecItem.Compare.{held, compare_lem, compare_prefix}
use python_nss_ng.SecItem.Index.{subscript_slice_lem, Reads, positions}

compare_lem_example :
    ((SecItem_richcompare (held (codes "ab") 0 buffer) (held (codes "ac") 0 buffer) eq ≡ some true)
      ↔ (codes "ab" ≡ codes "ac"))
    × (SecItem_richcompare (held (codes "ab") 0 buffer) (held (codes "ac") 0 buffer) lt
        ≡ SecItem_richcompare (held (codes "ac") 0 buffer) (held (codes "ab") 0 buffer) gt)
compare_lem_example = compare_lem (codes "ab") (codes "ac") 0 0 buffer buffer refl

compare_prefix_example :
    (SecItem_richcompare (held (codes "ab") 0 buffer) (held (codes "abc") 0 buffer) eq ≡ some true)
    × ((codes "c" ≡ [])
        ⊎ (SecItem_richcompare (held (codes "abc") 0 buffer) (held (codes "ab") 0 buffer) lt
            ≡ none))
compare_prefix_example = compare_prefix (codes "ab") (codes "c") 0 0 buffer buffer lt

subscript_slice_lem_example :
    Reads
      (codes "abcd")
      (positions 2 (pos 3) (negsuc 1))
      (subscript_slice (held (codes "abcd") 0 buffer) (pos 3) (negsuc 1) 2)
subscript_slice_lem_example =
    subscript_slice_lem (codes "abcd") 0 buffer (pos 3) (negsuc 1) 2
      (omega arith, (omega arith, tt))

every_other :
    subscript_slice (held (codes "abcd") 0 buffer) (pos 3) (negsuc 1) 2 ≡ some (codes "db")
unfolding subscript_slice slice_loop
every_other = refl

before_the_first : subscript_index (held (codes "abc") 0 buffer) (negsuc 3) ≡ index_error
unfolding subscript_index SecItem_item
before_the_first = refl
