-- ===== src/Xmq/Confirm/CleanUp.antt =====
-- The removal of a publish that is not waited for any more.
use snowgo.Prelude.{ℕ, ◌≡◌, refl, sym, false, List, Option, some, none, ◌==◌, arith, reverse}
use snowgo.Xmq.Pending.{
  PendingList, removed, pop_last, pop_tail_if_match, remove_first, remove_within, remove_by_tag,
  remove_tail_nearby, back,
}
use snowgo.Xmq.Pending.Laws.{
  TakesOut, others, pop_last-TakesOut, remove_first-TakesOut, back-TakesOut, remove_first-missing,
}
use snowgo.Xmq.Pending.Sound.{IsSound}
use snowgo.Xmq.Confirm.{clean_up, or_nearby, or_anywhere, default_tail_scan_limit}

-- The publish is off the list, and the others and what they have been told are as they were.
pub record IsGone (seq : ℕ) (l l' : PendingList) : Type 0 where
  pub left : l'.list ≡ others seq l.list
  pub untouched : (t : ℕ) → (t == seq) ≡ false → l'.recs t ≡ l.recs t
  pub told : (t : ℕ) → (l'.recs t).buffer ≡ (l.recs t).buffer

removed-IsGone :
    (seq : ℕ) (rest : List ℕ) (l : PendingList)
    → TakesOut seq l.list rest
    → IsGone seq l (removed seq (some rest) l).1
removed-IsGone seq rest l out = record {
  left = out.left;
  untouched = λ t n. ground arith;
  told = λ t. ground arith;
}

-- Wherever on a sound list a publish stands, near its end or not, and whether or not it is there,
-- the removal after a timeout, a cancellation or a close takes exactly this publish off the list: the
-- others stay, and nobody is told anything.
pub clean_up-IsGone :
    (bound seq : ℕ) (l : PendingList) → IsSound bound l → IsGone seq l (clean_up seq l)
unfolding clean_up pop_tail_if_match remove_tail_nearby remove_by_tag
clean_up-IsGone bound seq l s = by_tail (pop_last seq l.list) refl
  where
    by_any : (o : Option (List ℕ)) → remove_first seq l.list ≡ o → IsGone seq l (removed seq o l).1
    by_any none e = record {
      left = sym (remove_first-missing seq l.list e);
      untouched = λ t n. refl;
      told = λ t. refl;
    }
    by_any (some rest) e =
        removed-IsGone seq rest l (remove_first-TakesOut seq l.list rest s.ascending e)

    by_near :
        (o : Option (List ℕ))
        → back (remove_within seq default_tail_scan_limit (reverse l.list)) ≡ o
        → IsGone seq l (or_anywhere seq (removed seq o l)).1
    by_near none e = by_any (remove_first seq l.list) refl
    by_near (some rest) e =
        removed-IsGone seq rest l
          (back-TakesOut seq default_tail_scan_limit l.list rest s.ascending e)

    by_tail :
        (o : Option (List ℕ))
        → pop_last seq l.list ≡ o
        → IsGone seq l (or_anywhere seq (or_nearby seq (removed seq o l))).1
    by_tail none e =
        by_near (back (remove_within seq default_tail_scan_limit (reverse l.list))) refl
    by_tail (some rest) e =
        removed-IsGone seq rest l (pop_last-TakesOut seq l.list rest s.ascending e)
