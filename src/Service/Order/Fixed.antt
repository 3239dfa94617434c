-- ===== src/Service/Order/Fixed.antt =====
-- The order of the transactions is fixed by the transactions: by no order in which they came.
use student_18_byzcoin.Bytes.{Bytes, IsBytes}
use student_18_byzcoin.Common.{
  Result, ok, ◌>>=◌, bind-ok, ok-bind, ok-injective, length, replicate, All, ◌≡◌, refl, sym, ap,
  ◌∙◌, subst, List, [], ◌∷◌, ◌++◌, arith,
}
use student_18_byzcoin.Hash.{Hashing, sum256}
use student_18_byzcoin.Service.Order.{
  ClientTransaction, Network, xor_loop, xor_transactions, sort_with_salt, marshal_all,
  unmarshal_all, sort_transactions,
}
use student_18_byzcoin.Service.Xor.{xor_bytes, xor_bytes-swap, xor_bytes-IsBytes, length-xor_bytes}
use student_18_byzcoin.Sorting.Permuted.{Reordered, same, keep, swap, chain, sort_by-Reordered}

module _ ⦃H : Hashing⦄ where
  xor_loop-swap :
      (ts : List Bytes) (r a b : Bytes)
      → xor_loop (xor_bytes (xor_bytes r a) b) ts ≡ xor_loop (xor_bytes (xor_bytes r b) a) ts
  xor_loop-swap ts r a b = ap (λ (x : Bytes). xor_loop x ts) (xor_bytes-swap r a b)

  -- the exclusive or of all hashes forgets the order
  xor_loop-Reordered :
      {ts us : List Bytes} → Reordered ts us → (r : Bytes) → xor_loop r ts ≡ xor_loop r us
  unfolding xor_loop
  xor_loop-Reordered (same l) r = refl
  xor_loop-Reordered (keep a h) r = xor_loop-Reordered h (xor_bytes r (sum256 a))
  xor_loop-Reordered (swap a b l) r = xor_loop-swap l r (sum256 a) (sum256 b)
  xor_loop-Reordered (chain h k) r = xor_loop-Reordered h r ∙ xor_loop-Reordered k r

  -- The salt has 32 bytes, whatever the transactions are.
  xor_transactions-IsBytes :
      (ts : List Bytes) → (length (xor_transactions ts) ≡ 32) × IsBytes (xor_transactions ts)
  unfolding xor_transactions
  xor_transactions-IsBytes ts = go (replicate 32 0) ts refl (omega arith)
    where
      step : (r x : Bytes) → length r ≡ 32 → length (xor_bytes r x) ≡ 32
      step r x e = length-xor_bytes r x ∙ e

      go :
          (r : Bytes) (ts : List Bytes)
          → length r ≡ 32
          → IsBytes r
          → (length (xor_loop r ts) ≡ 32) × IsBytes (xor_loop r ts)
      go r [] e h = (e, h)
      go r (t ∷ ts) e h =
          go (xor_bytes r (sum256 t)) ts (step r (sum256 t) e) (xor_bytes-IsBytes r (sum256 t) h)

  module _ (N : Network) where
    marshal_all-Reordered :
        {ts us : List ClientTransaction} (bs : List Bytes)
        → Reordered ts us
        → marshal_all N ts ≡ ok bs
        → (cs : List Bytes) × (marshal_all N us ≡ ok cs) × Reordered bs cs
    unfolding marshal_all
    marshal_all-Reordered bs (same l) e = (bs, e, same bs)
    marshal_all-Reordered bs (keep a {l} {k} h) e =
        let (b, one, rest) = bind-ok (N.marshal a) _ e in
        let (all, got, q) = bind-ok (marshal_all N l) _ rest in
        let (cs, made, order) = marshal_all-Reordered all h got in
        (
          b ∷ cs,
          ok-bind (N.marshal a) _ one (ok-bind (marshal_all N k) _ made refl),
          subst (λ (z : List Bytes). Reordered z (b ∷ cs)) (ok-injective q) (keep b order),
        )
    marshal_all-Reordered bs (swap a b l) e =
        let (x, one, e1) = bind-ok (N.marshal a) _ e in
        let (two, got, q) = bind-ok (marshal_all N (b ∷ l)) _ e1 in
        let (y, second, e2) = bind-ok (N.marshal b) _ got in
        let (all, made, q2) = bind-ok (marshal_all N l) _ e2 in
        let marshalled : marshal_all N (b ∷ a ∷ l) ≡ ok (y ∷ x ∷ all) =
          ok-bind (N.marshal b) _ second (
            ok-bind (marshal_all N (a ∷ l)) _
              (ok-bind (N.marshal a) _ one (ok-bind (marshal_all N l) _ made refl)) refl) in
        (
          y ∷ x ∷ all,
          marshalled,
          subst (λ (z : List Bytes). Reordered z (y ∷ x ∷ all))
              (ap (λ (z : List Bytes). x ∷ z) (ok-injective q2) ∙ ok-injective q) (swap x y all),
        )
    marshal_all-Reordered bs (chain h k) e =
        let (cs, made, order) = marshal_all-Reordered bs h e in
        let (ds, made', order') = marshal_all-Reordered cs k made in (ds, made', chain order order')

    -- Transactions that marshal to encodings of which different ones have different salted hashes
    -- are sorted in one way: in whichever order a node received them, sortTransactions ends in
    -- the same.
    pub sort_transactions-Reordered :
        (P : Bytes → Type 0) (ts us : List ClientTransaction) (bs : List Bytes)
        → ((x y : Bytes)
            → P x
            → P y
            → sum256 (xor_transactions bs ++ x) ≡ sum256 (xor_transactions bs ++ y)
            → x ≡ y)
        → marshal_all N ts ≡ ok bs
        → All P bs
        → Reordered ts us
        → sort_transactions N us ≡ sort_transactions N ts
    unfolding sort_transactions xor_transactions sort_with_salt
    sort_transactions-Reordered P ts us bs tie e all order =
        let (cs, made, reordered) = marshal_all-Reordered bs order e in
        let salts : xor_transactions bs ≡ xor_transactions cs =
          xor_loop-Reordered reordered (replicate 32 0) in
        let sorted : sort_with_salt bs (xor_transactions bs)
            ≡ sort_with_salt cs (xor_transactions bs) =
          sort_by-Reordered (λ (t : Bytes). sum256 (xor_transactions bs ++ t)) P tie reordered
            all in
        ap (λ (r : Result (List Bytes)). r >>= sorted_back) made
        ∙ ap (λ (salt : Bytes). unmarshal_all N (sort_with_salt cs salt)) (sym salts)
        ∙ ap (unmarshal_all N) (sym sorted)
        ∙ sym (ap (λ (r : Result (List Bytes)). r >>= sorted_back) e)
      where
        sorted_back : List Bytes → Result (List ClientTransaction)
        sorted_back bs = unmarshal_all N (sort_with_salt bs (xor_transactions bs))
