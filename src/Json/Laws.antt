-- ===== src/Json/Laws.antt =====
-- Reading the fields of an object after a field was deleted or set.
use socket_tester.Base.{◌≡◌, some, none, Text, text_eq, text_eq_iff, if◌then◌else◌, arith}
use socket_tester.Json.{Value, Fields, end, field, get_field, delete_field, set_field}

pub get_field-delete_field :
    (j k : Text) (fs : Fields)
    → get_field j (delete_field k fs) ≡ (if text_eq k j then none else get_field j fs)
unfolding get_field delete_field
get_field-delete_field j k end = ground arith
get_field-delete_field j k (field i v fs) =
    ground (arith, get_field-delete_field j k fs, text_eq_iff k j, text_eq_iff i k, text_eq_iff i j)

pub get_field-set_field :
    (j k : Text) (v : Value) (fs : Fields)
    → get_field j (set_field k v fs) ≡ (if text_eq k j then some v else get_field j fs)
unfolding get_field set_field
get_field-set_field j k v end = ground arith
get_field-set_field j k v (field i w fs) =
    ground (arith, get_field-set_field j k v fs, text_eq_iff k j, text_eq_iff i k, text_eq_iff i j)
