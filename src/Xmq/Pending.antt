-- ===== src/Xmq/Pending.antt =====
-- pkg/xmq/rabbitmq/conn_manager.go: pendingList, the publishes of a channel that wait for the
-- broker's confirmation. Each operation runs under the list's mutex. A pendingRec is named by its
-- tag, as a channel hands out every tag once; its Go channel has room for one confirmation, of which
-- only Ack is read.
pub mod Laws
pub mod Sound
pub mod Woken
use snowgo.Prelude.{
  ℕ, zero, suc, ◌+◌, ◌-◌, Bool, true, false, List, [], ◌∷◌, ◌++◌, Option, none, some, ◌==◌, leb,
  reverse, if◌then◌else◌,
}

pub record Rec : Type 0 where
  pub buffer : Option Bool
  pub closed : Bool

-- `panicked`: a send on a closed channel, which Go answers with a panic.
pub record PendingList : Type 0 where
  pub list : List ℕ
  pub count : ℕ
  pub recs : ℕ → Rec
  pub panicked : Bool

abbrev pub with_rec : ℕ → Rec → (ℕ → Rec) → ℕ → Rec
with_rec tag rec recs k = if k == tag then rec else recs k

-- A new rec, at the end of the list.
unfoldable pub add : ℕ → PendingList → PendingList
add tag l = record l {
  list = l.list ++ (tag ∷ []);
  count = l.count + 1;
  recs = with_rec tag (record { buffer = none; closed = false }) l.recs;
}

-- decCount: never below 0.
abbrev pub dec_count : ℕ → ℕ → ℕ
dec_count n count = count - n

-- once.Do(close)
abbrev pub close_rec : ℕ → PendingList → PendingList
close_rec tag l = record l { recs = with_rec tag (record (l.recs tag) { closed = true }) l.recs }

abbrev pub buffered : Bool → Option Bool → Option Bool
buffered ack none = some ack
buffered ack (some b) = some b

abbrev pub send_and_close : Bool → Rec → Rec
send_and_close ack rec = record { buffer = buffered ack rec.buffer; closed = true }

-- The send that does not block, and the close after it.
unfoldable pub wake : ℕ → Bool → PendingList → PendingList
wake tag ack l =
    if (l.recs tag).closed
    then record l { panicked = true }
    else record l { recs = with_rec tag (send_and_close ack (l.recs tag)) l.recs }

-- The loop of ackLE: how many were woken, the rest of the list, and the recs.
abbrev pub wake_prefix : ℕ → Bool → List ℕ → PendingList → ℕ × List ℕ × PendingList
wake_prefix tag ack [] l = (0, [], l)
wake_prefix tag ack (t ∷ ts) l =
    let rest = wake_prefix tag ack ts (wake t ack l) in
    if leb t tag then (suc rest.0, rest.1, rest.2) else (0, t ∷ ts, l)

unfoldable pub ack_le : ℕ → Bool → PendingList → ℕ × PendingList
ack_le tag ack l =
    let (i, rest, l') = wake_prefix tag ack l.list l in
    (i, record l' { list = rest; count = dec_count i l.count })

-- ^uint64(0)
abbrev pub max_tag : ℕ
max_tag = 18446744073709551615

unfoldable pub drain_all : PendingList → ℕ × PendingList
drain_all l = ack_le max_tag false l

-- The list without its last element, where that is the tag.
abbrev pub pop_last : ℕ → List ℕ → Option (List ℕ)
pop_last want [] = none
pop_last want (t ∷ []) = if t == want then some [] else none
pop_last want (t ∷ u ∷ ts) = elim (pop_last want (u ∷ ts)) [ none ↦ none | some r ↦ some (t ∷ r) ]

abbrev pub removed : ℕ → Option (List ℕ) → PendingList → Bool × PendingList
removed want none l = (false, l)
removed want (some rest) l =
    (true, record (close_rec want l) { list = rest; count = dec_count 1 l.count })

unfoldable pub pop_tail_if_match : ℕ → PendingList → Bool × PendingList
pop_tail_if_match want l = removed want (pop_last want l.list) l

-- The list without the first element that is the tag, among the first `limit`.
abbrev pub remove_within : ℕ → ℕ → List ℕ → Option (List ℕ)
remove_within want limit [] = none
remove_within want zero (t ∷ ts) = none
remove_within want (suc limit) (t ∷ ts) =
    let rest = remove_within want limit ts in
    if t == want then some ts else elim rest [ none ↦ none | some r ↦ some (t ∷ r) ]

abbrev pub remove_first : ℕ → List ℕ → Option (List ℕ)
remove_first want [] = none
remove_first want (t ∷ ts) =
    let rest = remove_first want ts in
    if t == want then some ts else elim rest [ none ↦ none | some r ↦ some (t ∷ r) ]

unfoldable pub remove_by_tag : ℕ → PendingList → Bool × PendingList
remove_by_tag want l = removed want (remove_first want l.list) l

abbrev pub back : Option (List ℕ) → Option (List ℕ)
back none = none
back (some ts) = some (reverse ts)

-- The scan from the end.
unfoldable pub remove_tail_nearby : ℕ → ℕ → PendingList → Bool × PendingList
remove_tail_nearby want scan_limit l =
    removed want (back (remove_within want scan_limit (reverse l.list))) l
