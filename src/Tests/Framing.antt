-- ===== src/Tests/Framing.antt =====
-- The framing, the codec, the log and the weights on concrete inputs.
use bft_rs.Prelude.{
  ℕ, ◌*◌, ◌<◌, ◌≤◌, ◌≡◌, refl, none, some, List, [], ◌∷◌, ◌++◌, ok, panic, length, take, suc, arith,
}
use bft_rs.Objects.{Bytes, Address, Hash, Feed, Status, LogType}
use bft_rs.Framing.{combine_two, extract_two}
use bft_rs.Framing.Digits.{to_be_bytes, to_le_bytes, from_be_bytes, be_from}
use bft_rs.Framing.RoundTrip.{extract_two-combine_two, extract_two_wraps}
use bft_rs.Codec.{signed_vote_item, item_signed_vote}
use bft_rs.Codec.RoundTrip.{item_signed_vote-signed_vote_item}
use bft_rs.Weight.{get_index, index_loop, sum64, get_total_weight, get_votes_weight}
use bft_rs.Weight.Index.{sum, get_index_lem}
use bft_rs.Weight.Quorum.{HasQuorum, common, quorum_intersection}
use bft_rs.Wal.{Wal, wal_new, load, set_height, parse_records, record_bytes}
use bft_rs.Wal.Records.{file_of}
use bft_rs.Wal.Torn.{parse_records-torn}
use bft_rs.Wal.Files.{save_all, restart, load-save_all, Holds}
use bft_rs.Collect.VoteSet
use bft_rs.Collect.VoteSet.{VoteSet}
use bft_rs.Collect.VoteSet.Counts.{IsCounted, new-IsCounted, add-IsCounted}
use bft_rs.Wal.Buffer.{load_twice}
use bft_rs.Tests.Sample.{sample, sample-RlpLaws, nodes, prevote_by}

framed : combine_two (7 ∷ 8 ∷ []) (9 ∷ []) ≡ 0 ∷ 0 ∷ 0 ∷ 0 ∷ 0 ∷ 0 ∷ 0 ∷ 2 ∷ 7 ∷ 8 ∷ 9 ∷ []
unfolding combine_two to_be_bytes
framed = refl

extract_two-combine_two_example :
    extract_two (combine_two (7 ∷ 8 ∷ []) (9 ∷ [])) ≡ ok ((7 ∷ 8 ∷ []), (9 ∷ []))
extract_two-combine_two_example = extract_two-combine_two (7 ∷ 8 ∷ []) (9 ∷ []) (omega arith)

-- A frame of nine bytes whose mark is 2 ^ 64 - 1.
abbrev wrapping : Bytes
wrapping = 255 ∷ 255 ∷ 255 ∷ 255 ∷ 255 ∷ 255 ∷ 255 ∷ 255 ∷ 0 ∷ []

wrapping_mark : from_be_bytes (take 8 wrapping) ≡ 18446744073709551615
unfolding from_be_bytes be_from
wrapping_mark = refl

extract_two_wraps_example : extract_two wrapping ≡ panic
extract_two_wraps_example =
    extract_two_wraps wrapping 18446744073709551615 (omega arith) (omega arith) (omega arith)
      wrapping_mark (omega arith)

item_signed_vote-signed_vote_item_example :
    item_signed_vote (signed_vote_item (prevote_by 2)) ≡ ok (prevote_by 2)
item_signed_vote-signed_vote_item_example =
    item_signed_vote-signed_vote_item sample-RlpLaws (prevote_by 2) (omega arith) (omega arith)

abbrev one_feed : Feed
one_feed = record { height = 5; block = 1 ∷ 2 ∷ []; block_hash = 7 ∷ [] }

abbrev one_status : Status
one_status = record { height = 5; interval = some 3000; authority_list = nodes }

-- Seed 7 over the weights 1, 2 and 3 falls in the second share.
get_index_value : get_index 7 (1 ∷ 2 ∷ 3 ∷ []) ≡ ok 1
unfolding get_index index_loop sum64
get_index_value = refl

get_index_lem_example :
    (k : ℕ) × (get_index 7 (1 ∷ 2 ∷ 3 ∷ []) ≡ ok k)
    × (k < 3)
    × (sum (take k (1 ∷ 2 ∷ 3 ∷ [])) ≤ 1)
    × (1 < sum (take (suc k) (1 ∷ 2 ∷ 3 ∷ [])))
get_index_lem_example = get_index_lem 7 (1 ∷ 2 ∷ 3 ∷ []) (omega arith) (omega arith)

abbrev first_three : List Address
first_three = (1 ∷ []) ∷ (2 ∷ []) ∷ (3 ∷ []) ∷ []

abbrev last_three : List Address
last_three = (2 ∷ []) ∷ (3 ∷ []) ∷ (4 ∷ []) ∷ []

first_three-HasQuorum : HasQuorum nodes first_three
unfolding get_total_weight get_votes_weight sum64
first_three-HasQuorum = omega arith

last_three-HasQuorum : HasQuorum nodes last_three
unfolding get_total_weight get_votes_weight sum64
last_three-HasQuorum = omega arith

quorum_intersection_example :
    get_total_weight nodes < get_votes_weight nodes (common first_three last_three) * 3
quorum_intersection_example =
    quorum_intersection nodes first_three last_three (omega arith) first_three-HasQuorum
      last_three-HasQuorum

one_vote-IsCounted : IsCounted (VoteSet.add (prevote_by 1) 1 VoteSet.new).1
one_vote-IsCounted = add-IsCounted (prevote_by 1) 1 VoteSet.new new-IsCounted (omega arith)

one_vote_count : (VoteSet.add (prevote_by 1) 1 VoteSet.new).1.count ≡ 1
unfolding VoteSet.add
one_vote_count = refl

abbrev counted_set : VoteSet
counted_set = record { votes_by_sender = []; votes_by_proposal = ((7 ∷ []), 3) ∷ []; count = 3 }

abbrev seven : Hash
seven = 7 ∷ []

abbrev log_at_5 : Wal
log_at_5 = set_height 5 (wal_new [] none)

log_at_5-Holds : Holds log_at_5 5 []
unfolding set_height wal_new
log_at_5-Holds = record { opened = refl; indexed = refl; content = refl }

load-save_all_example :
    load (restart (save_all 5 ((LogType.vote, (1 ∷ 2 ∷ [])) ∷ []) log_at_5))
    ≡ ok ((LogType.vote, (1 ∷ 2 ∷ [])) ∷ [])
load-save_all_example =
    load-save_all log_at_5 5 [] ((LogType.vote, (1 ∷ 2 ∷ [])) ∷ []) (omega arith) (ground arith)
      (ground arith) log_at_5-Holds

abbrev one_record : List (LogType × Bytes)
one_record = (LogType.vote, (1 ∷ 2 ∷ [])) ∷ []

-- One record and six of the seven bytes of the next.
abbrev torn : Bytes
torn = file_of one_record ++ take 6 (record_bytes LogType.feed (3 ∷ 4 ∷ []))

length-torn : length torn ≤ 20
unfolding record_bytes to_le_bytes
length-torn = omega arith

parse_records-torn_example : parse_records 20 torn ≡ ok one_record
parse_records-torn_example =
    parse_records-torn 20 one_record LogType.feed (3 ∷ 4 ∷ []) 6 (ground arith) (omega arith)
      (omega arith) length-torn

abbrev next_record : List (LogType × Bytes)
next_record = (LogType.feed, (3 ∷ 4 ∷ [])) ∷ []

-- A directory with the files of the heights 5 and 6 open.
abbrev two_files : Wal
two_files = record {
  files = (5, file_of one_record) ∷ (6, file_of next_record) ∷ [];
  index = some 5;
  height_fs = 5 ∷ 6 ∷ [];
  current_height = 5;
}

long_file : 5 < length (file_of one_record)
unfolding record_bytes to_le_bytes
long_file = omega arith

same_length : length (file_of next_record) ≡ length (file_of one_record)
unfolding record_bytes to_le_bytes
same_length = refl

load_twice_example : load two_files ≡ ok (one_record ++ one_record)
load_twice_example =
    load_twice two_files 5 one_record next_record (omega arith) refl refl refl refl (ground arith)
      long_file same_length
