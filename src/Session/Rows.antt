-- ===== src/Session/Rows.antt =====
-- What tracking and untracking do to the rows of `perPeer`, and how often an identifier stands in
-- the order of the ended sessions.
use dc_streaming_p2p.Base.{
  ℕ, ◌+◌, ◌≡◌, refl, Bool, true, Option, none, some, List, [], ◌∷◌, ◌++◌, Text, text_dec, ite,
  arith, bit,
}
use dc_streaming_p2p.Base.Map.{Map, lookup, insert, delete, lookup-insert, lookup-delete}
use dc_streaming_p2p.Base.Strings.{same}
use dc_streaming_p2p.Session.Store.{Store}
use dc_streaming_p2p.Session.Steps.{row, track, untrack, put_back, drop_id}

pub row-track :
    (p q id : Text) (s : Store)
    → row q (track p id s).per_peer
      ≡ ite (text_dec p q) (insert id true (row q s.per_peer)) (row q s.per_peer)
unfolding track
row-track p q id s =
    ground (arith, lookup-insert p q (insert id true (row p s.per_peer)) s.per_peer)

row-put_back :
    (p q : Text) (held : Map Bool) (rows : Map (Map Bool))
    → row q (put_back p held rows) ≡ ite (text_dec p q) held (row q rows)
row-put_back p q [] rows = ground (arith, lookup-delete p q rows)
row-put_back p q (e ∷ held) rows = ground (arith, lookup-insert p q (e ∷ held) rows)

row-drop_id :
    (p q id : Text) (o : Option (Map Bool)) (rows : Map (Map Bool))
    → lookup p rows ≡ o
    → row q (drop_id p id o rows) ≡ ite (text_dec p q) (delete id (row q rows)) (row q rows)
unfolding delete
row-drop_id p q id none rows e = ground arith
row-drop_id p q id (some held) rows e = ground (arith, row-put_back p q (delete id held) rows)

pub row-untrack :
    (p q id : Text) (s : Store)
    → row q (untrack p id s).per_peer
      ≡ ite (text_dec p q) (delete id (row q s.per_peer)) (row q s.per_peer)
unfolding untrack
row-untrack p q id s = row-drop_id p q id (lookup p s.per_peer) s.per_peer refl

-- How often an identifier stands in a list.
unfoldable pub occurs : Text → List Text → ℕ
occurs id [] = 0
occurs id (x ∷ xs) = bit (same x id) + occurs id xs

pub occurs-append :
    (id : Text) (xs ys : List Text) → occurs id (xs ++ ys) ≡ occurs id xs + occurs id ys
unfolding occurs
occurs-append id [] ys = omega arith
occurs-append id (x ∷ xs) ys = omega (arith, occurs-append id xs ys)
