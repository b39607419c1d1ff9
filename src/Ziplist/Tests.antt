-- ===== src/Ziplist/Tests.antt =====
-- The ziplist of ziplist.c at a few values.
use mathlib.Core.Option
use project.Prelude.{
  ℕ, ◌+◌, ◌≡◌, refl, inl, some, none, List, [], ◌∷◌, ◌++◌, Option, map, replicate, length,
  get_elem?, reverse, arith,
}
use project.Prelude.Int.{negsuc}
use project.Prelude.Options.{◌>>=◌}
use project.Rdb.{Bytes, little_endian, read_little}
use project.Intset.Bytes.{to_bits, of_bits}
use project.Sds.{memcpy, realloc, overlay}
use project.Util.{string2ll, parse_digits, parse_loop, signed_value}
use project.Ziplist
use project.Ziplist.Blob
use project.Ziplist.Remove
use project.Ziplist.Visit
use project.Ziplist.Visit.{Value, text, number}
use project.Ziplist.Encoding.{IsSaved, integer_encoding-IsSaved}
use project.Ziplist.Layout.{Node, node_size, node_bytes, head, payload, prev_field}
use project.Ziplist.Nodes.{IsZiplist, entries, last_size, header}
use project.Ziplist.Places.{offset}
use project.Ziplist.Write.{plain}
use project.Ziplist.Push.{push_tail-IsZiplist}
use project.Ziplist.Middle.{Keeps}
use project.Ziplist.Insert.{insert-IsZiplist}
use project.Ziplist.Overread.{wide, insert-fault}
use project.Ziplist.Contents.{
  push_all, blob_size, read_index, node_meaning, read_index-get_elem?, next-prev, len-length,
  read_index-push_all, IsReadAs,
}
use project.Ziplist.Reversed.{read_back, read_back-reverse}
use project.Ziplist.Find.{offset_at}
use project.Ziplist.First.{IsFirst, find-IsFirst}

-- The bytes that realloc leaves.
abbrev zeros : ℕ → ℕ
zeros n = 0

abbrev abc : Bytes
abc = b'a' ∷ b'b' ∷ b'c' ∷ []

abbrev seven : Bytes
seven = b'7' ∷ []

-- Two nodes, where the second has a length field of five bytes for a length of 5.
abbrev nodes : List Node
nodes = plain abc ∷ wide seven ∷ []

abbrev blob : Bytes
blob =
    22 ∷ 0 ∷ 0 ∷ 0 ∷ 15 ∷ 0 ∷ 0 ∷ 0 ∷ 2 ∷ 0 ∷ 0 ∷ 3 ∷ b'a' ∷ b'b' ∷ b'c' ∷ 254 ∷ 5 ∷ 0 ∷ 0 ∷ 0 ∷ 248
    ∷ 255 ∷ []

blob-IsZiplist : IsZiplist blob nodes
unfolding header entries last_size node_bytes node_size head payload prev_field
    Ziplist.encode_length Ziplist.prev_encode_length Ziplist.prev_encode_length_force_large
    Ziplist.try_encoding Ziplist.save_integer Ziplist.integer_encoding string2ll parse_digits
    parse_loop little_endian
blob-IsZiplist = record {
  count = 2;
  tail = 15;
  total = 22;
  layout = refl;
  sized = refl;
  at_last = refl;
  counted = inl refl;
  count_small = omega arith;
  small = omega arith;
}

-- The same texts, where the field of the second takes one byte.
abbrev narrow_nodes : List Node
narrow_nodes = plain abc ∷ plain seven ∷ []

abbrev narrow_blob : Bytes
narrow_blob =
    18 ∷ 0 ∷ 0 ∷ 0 ∷ 15 ∷ 0 ∷ 0 ∷ 0 ∷ 2 ∷ 0 ∷ 0 ∷ 3 ∷ b'a' ∷ b'b' ∷ b'c' ∷ 5 ∷ 248 ∷ 255 ∷ []

narrow_blob-IsZiplist : IsZiplist narrow_blob narrow_nodes
unfolding header entries last_size node_bytes node_size head payload prev_field
    Ziplist.encode_length Ziplist.prev_encode_length Ziplist.prev_encode_length_force_large
    Ziplist.try_encoding Ziplist.save_integer Ziplist.integer_encoding string2ll parse_digits
    parse_loop little_endian
narrow_blob-IsZiplist = record {
  count = 2;
  tail = 15;
  total = 18;
  layout = refl;
  sized = refl;
  at_last = refl;
  counted = inl refl;
  count_small = omega arith;
  small = omega arith;
}

abc_in_the_middle : node_size (last_size 0 (plain abc ∷ [])) (plain abc) ≡ 5
unfolding header entries last_size node_bytes node_size head payload prev_field
    Ziplist.encode_length Ziplist.prev_encode_length Ziplist.prev_encode_length_force_large
    Ziplist.try_encoding Ziplist.save_integer Ziplist.integer_encoding string2ll parse_digits
    parse_loop little_endian
abc_in_the_middle = refl

seven-Keeps :
    Keeps
      (last_size 0 (plain abc ∷ []))
      (node_size (last_size 0 (plain abc ∷ [])) (plain abc))
      (plain seven)
unfolding header entries last_size node_bytes node_size head payload prev_field
    Ziplist.encode_length Ziplist.prev_encode_length Ziplist.prev_encode_length_force_large
    Ziplist.try_encoding Ziplist.save_integer Ziplist.integer_encoding string2ll parse_digits
    parse_loop little_endian Ziplist.prev_encode_length_size
seven-Keeps = refl

insert-IsZiplist_example :
    (zl' : Bytes) × (Blob.insert zeros narrow_blob (offset (plain abc ∷ [])) abc ≡ some zl')
    × IsZiplist zl' (plain abc ∷ plain abc ∷ plain seven ∷ [])
unfolding narrow_blob-IsZiplist
insert-IsZiplist_example =
    insert-IsZiplist zeros (plain abc ∷ []) (plain seven) [] abc narrow_blob-IsZiplist seven-Keeps
      (omega (arith, abc_in_the_middle))

room_for_abc : 22 + node_size (last_size 0 nodes) (plain abc) ≡ 27
unfolding header entries last_size node_bytes node_size head payload prev_field
    Ziplist.encode_length Ziplist.prev_encode_length Ziplist.prev_encode_length_force_large
    Ziplist.try_encoding Ziplist.save_integer Ziplist.integer_encoding string2ll parse_digits
    parse_loop little_endian
room_for_abc = refl

push_tail-IsZiplist_example :
    (zl' : Bytes) × (Blob.push_tail zeros blob abc ≡ some zl')
    × IsZiplist zl' (nodes ++ plain abc ∷ [])
unfolding blob-IsZiplist
push_tail-IsZiplist_example =
    push_tail-IsZiplist zeros abc blob-IsZiplist (omega (arith, room_for_abc))

required_five : Blob.required (last_size 0 (plain abc ∷ [])) (b'5' ∷ []) ≡ 2
unfolding Blob.required Ziplist.prev_encode_length_size Ziplist.encode_length_size Ziplist.int_size
    header entries last_size node_bytes node_size head payload prev_field Ziplist.encode_length
    Ziplist.prev_encode_length Ziplist.prev_encode_length_force_large Ziplist.try_encoding
    Ziplist.save_integer Ziplist.integer_encoding string2ll parse_digits parse_loop little_endian
required_five = refl

insert-fault_example : Blob.insert zeros blob (offset (plain abc ∷ [])) (b'5' ∷ []) ≡ none
unfolding blob-IsZiplist
insert-fault_example =
    insert-fault zeros (plain abc ∷ []) [] seven (b'5' ∷ []) blob-IsZiplist (omega arith)
      required_five

read_index-get_elem?_example :
    read_index blob 1 ≡ some (Option.map node_meaning (get_elem? nodes 1))
read_index-get_elem?_example = read_index-get_elem? nodes 1 blob-IsZiplist (omega arith)

next-prev_example :
    (Visit.next blob (offset []) ≡ some (some (offset (plain abc ∷ []))))
    × (Visit.prev blob (offset (plain abc ∷ [])) ≡ some (some (offset [])))
next-prev_example = next-prev [] (plain abc) (wide seven) [] blob-IsZiplist (omega arith)

len-length_example :
    (zl' : Bytes) × (Visit.len blob ≡ some (length nodes, zl')) × IsZiplist zl' nodes
len-length_example = len-length nodes blob-IsZiplist (omega arith)

find-IsFirst_example :
    (o : Option ℕ) × (Visit.find blob 10 seven 0 ≡ some (Option.map (offset_at [] nodes) o))
    × IsFirst 0 0 seven nodes o
find-IsFirst_example = find-IsFirst nodes seven 0 blob-IsZiplist (omega arith)

two_texts : blob_size (map plain (abc ∷ seven ∷ [])) ≡ 18
unfolding header entries last_size node_bytes node_size head payload prev_field
    Ziplist.encode_length Ziplist.prev_encode_length Ziplist.prev_encode_length_force_large
    Ziplist.try_encoding Ziplist.save_integer Ziplist.integer_encoding string2ll parse_digits
    parse_loop little_endian
two_texts = refl

read_index-push_all_example :
    (zl : Bytes) × (push_all zeros Blob.new (abc ∷ seven ∷ []) ≡ some zl)
    × (o : Option Value) × (read_index zl 1 ≡ some o)
    × IsReadAs (get_elem? (abc ∷ seven ∷ []) 1) o
read_index-push_all_example =
    read_index-push_all zeros (abc ∷ seven ∷ []) 1 (omega (arith, two_texts))

integer_encoding-IsSaved_example :
    IsSaved (negsuc 999999) (Ziplist.integer_encoding (negsuc 999999))
integer_encoding-IsSaved_example = integer_encoding-IsSaved (negsuc 999999) (omega arith)

abbrev word : ℕ → Bytes
word n = replicate n b'x'

-- Three pushes, a deletion and an insertion that read behind the allocation.
overread_run : Option Bytes
overread_run = do
  a ← Blob.push_tail zeros Blob.new (word 300)
  b ← Blob.push_tail zeros a (word 250)
  c ← Blob.push_tail zeros b (b'y' ∷ [])
  d ← Remove.delete zeros c 10
  Blob.insert zeros d 263 seven

-- The pushes and the deletion leave a ziplist that is well read.
shrunk_run : Option (Option Value)
shrunk_run = do
  a ← Blob.push_tail zeros Blob.new (word 300)
  b ← Blob.push_tail zeros a (word 250)
  c ← Blob.push_tail zeros b (b'y' ∷ [])
  d ← Remove.delete zeros c 10
  read_index d 1

overread_run-fault : overread_run ≡ none
unfolding overread_run Blob.push_tail Blob.ziplist_bytes read_little Blob.new little_endian
    Blob.insert Blob.prevlen_at Blob.tail_offset Blob.make_space Blob.resize Blob.put_bytes memcpy
    realloc Blob.required Ziplist.try_encoding Ziplist.prev_encode_length_size
    Ziplist.encode_length_size of_bits to_bits overlay parse_digits parse_loop signed_value
    string2ll Blob.adjust_next Blob.cascade_entry Blob.cascade_loop Blob.cascade_step
    Blob.cascade_update Blob.incr_length Blob.insert_before Blob.memmove Blob.put_length
    Blob.put_tail_offset Blob.widen Blob.write_entry Blob.ziplist_length Remove.close_gap
    Remove.delete Remove.delete_entries Remove.skip Remove.take_out Ziplist.decode_length
    Ziplist.decode_prevlen Ziplist.decode_prevlensize Ziplist.encode_length Ziplist.entry
    Ziplist.int_size Ziplist.integer_encoding Ziplist.prev_encode_length
    Ziplist.prev_encode_length_force_large Ziplist.prev_len_byte_diff Ziplist.raw_entry_length
    Ziplist.save_integer
overread_run-fault = refl

shrunk_run-text : shrunk_run ≡ some (some (text (b'y' ∷ [])))
unfolding shrunk_run Blob.push_tail Blob.ziplist_bytes read_little Blob.new little_endian
    Blob.insert Blob.prevlen_at Blob.tail_offset Blob.make_space Blob.resize Blob.put_bytes memcpy
    realloc Blob.required Ziplist.try_encoding Ziplist.prev_encode_length_size
    Ziplist.encode_length_size of_bits to_bits overlay parse_digits parse_loop signed_value
    string2ll Blob.adjust_next Blob.cascade_entry Blob.cascade_loop Blob.cascade_step
    Blob.cascade_update Blob.incr_length Blob.insert_before Blob.memmove Blob.put_length
    Blob.put_tail_offset Blob.widen Blob.write_entry Blob.ziplist_length Remove.close_gap
    Remove.delete Remove.delete_entries Remove.skip Remove.take_out Ziplist.decode_length
    Ziplist.decode_prevlen Ziplist.decode_prevlensize Ziplist.encode_length Ziplist.entry
    Ziplist.int_size Ziplist.integer_encoding Ziplist.prev_encode_length
    Ziplist.prev_encode_length_force_large Ziplist.prev_len_byte_diff Ziplist.raw_entry_length
    Ziplist.save_integer Visit.backward Visit.forward Visit.get Visit.index Visit.reached
    Visit.read_payload Ziplist.load_integer Ziplist.read_signed Ziplist.shift_8
shrunk_run-text = refl

read_back-reverse_example :
    read_back blob 0 ≡ some (Option.map node_meaning (get_elem? (reverse nodes) 0))
read_back-reverse_example = read_back-reverse nodes 0 blob-IsZiplist (omega arith)
