-- ===== src/Guid/Runs.antt =====
-- A GUID printed and read back.
use linux2win.Base.{◌≡◌, refl, arith, [], ◌∷◌, codes}
use linux2win.Guid.{
  Guid, to_string, from_string, hex_text, hex_bytes, clean, stoul, read_prefixed, read_number,
  read_digits, read_pairs, read_guid,
}
use linux2win.Guid.RoundTrip.{IsGuid, from_string-to_string}

abbrev linux_data : Guid
linux_data = record {
  data1 = 0x0fc6_3daf;
  data2 = 0x8483;
  data3 = 0x4772;
  data4 = 0x8e ∷ 0x79 ∷ 0x3d ∷ 0x69 ∷ 0xd8 ∷ 0x47 ∷ 0x7d ∷ 0xe4 ∷ [];
}

linux_data-IsGuid : IsGuid linux_data
linux_data-IsGuid = record {
  data1_fits = omega arith;
  data2_fits = omega arith;
  data3_fits = omega arith;
  data4_length = refl;
  data4_bytes = ground arith;
}

printed : to_string linux_data ≡ codes "0fc63daf-8483-4772-8e79-3d69d8477de4"
unfolding to_string hex_text hex_bytes
printed = refl

read_braced : from_string (codes "{0FC63DAF-8483-4772-8E79-3D69D8477DE4}") ≡ linux_data
unfolding from_string clean stoul read_prefixed read_number read_digits read_pairs read_guid
read_braced = refl

from_string-to_string_example : from_string (to_string linux_data) ≡ linux_data
from_string-to_string_example = from_string-to_string linux_data linux_data-IsGuid
