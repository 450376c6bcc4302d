-- ===== src/Net/Node/Caps.antt =====
-- The counts of inbound connections, held against the connections that are open.
use summerpoem_cli.Prelude.{
  ℕ, suc, ◌+◌, ◌-◌, ◌≤◌, ◌≡◌, refl, sym, ap, arith, Bool, true, false, Option, none, some, List, [],
  ◌∷◌, ◌++◌, length, if◌then◌else◌, leb, ◌==◌, ◌||◌, Bool-cases, inl, inr, Option-cases,
}
use mathlib.Core.Path.{subst}
use summerpoem_cli.Prelude.Dictionary.{
  Dictionary, get, insert, remove, total, get-insert, get-remove, Unique, insert-Unique,
  remove-Unique, total-remove-Unique, total-remove-absent,
}
use summerpoem_cli.Net.Message.{IpAddr}
use summerpoem_cli.Net.Address.{ip_eq, ip_eq_iff, ip_Eq}
use summerpoem_cli.Net.Node.{
  Shared, max_inbound, max_per_ip, or_zero, ban_state, is_banned, dec_count, dec_inbound,
  count_inbound, accept_unless, accept,
}

-- How many of the connections are from the address.
unfoldable pub count_of : IpAddr → List IpAddr → ℕ
count_of ip [] = 0
count_of ip (j ∷ links) = (if ip_eq ip j then 1 else 0) + count_of ip links

count_of-append :
    (ip : IpAddr) (xs ys : List IpAddr) → count_of ip (xs ++ ys) ≡ count_of ip xs + count_of ip ys
unfolding count_of
count_of-append ip [] ys = omega arith
count_of-append ip (x ∷ xs) ys = omega (arith, count_of-append ip xs ys)

-- The table counts the open connections, and they are within the caps.
pub record IsCounted (inbound : Dictionary IpAddr ℕ) (links : List IpAddr) : Type 0 where
  pub unique : Unique inbound
  pub counts : (ip : IpAddr) → or_zero (get ip inbound) ≡ count_of ip links
  pub all : total (λ c. c) inbound ≡ length links
  pub capped : length links ≤ max_inbound
  pub capped_each : (ip : IpAddr) → count_of ip links ≤ max_per_ip

pub empty-IsCounted : IsCounted [] []
unfolding or_zero get count_of total
empty-IsCounted = record {
  unique = tt;
  counts = λ ip. refl;
  all = refl;
  capped = omega arith;
  capped_each = λ ip. omega arith;
}

-- What the other entries weigh.
total-others :
    (ip : IpAddr) (m : Dictionary IpAddr ℕ)
    → Unique m
    → total (λ c. c) (remove ip m) + or_zero (get ip m) ≡ total (λ c. c) m
unfolding or_zero
total-others ip m u = elim (Option-cases (get ip m)) [
  | inl e ↦ rw e (omega (arith, total-remove-absent (λ c. c) ip m e))
  | inr (c, e) ↦ rw e (total-remove-Unique (λ c. c) ip c m u e)
]

insert-IsCounted :
    (ip : IpAddr) (inbound : Dictionary IpAddr ℕ) (links : List IpAddr)
    → IsCounted inbound links
    → total (λ c. c) inbound + 1 ≤ max_inbound
    → or_zero (get ip inbound) + 1 ≤ max_per_ip
    → IsCounted (insert ip (or_zero (get ip inbound) + 1) inbound) (ip ∷ links)
unfolding insert total count_of or_zero
insert-IsCounted ip inbound links v room room_each = record {
  unique = unfold insert in insert-Unique ip (or_zero (get ip inbound) + 1) inbound v.unique;
  counts = λ k. ground (
    arith,
    get-insert k ip (or_zero (get ip inbound) + 1) inbound,
    v.counts k,
    v.counts ip,
    ip_eq_iff k ip,
  );
  all = omega (arith, total-others ip inbound v.unique, v.all);
  capped = omega (arith, v.all);
  capped_each = λ k. ground (arith, v.counts k, v.counts ip, v.capped_each k, ip_eq_iff k ip);
}

count_of-middle :
    (k ip : IpAddr) (before after : List IpAddr)
    → count_of k (before ++ (ip ∷ after))
      ≡ (if ip_eq k ip then 1 else 0) + count_of k (before ++ after)
unfolding count_of
count_of-middle k ip [] after = refl
count_of-middle k ip (x ∷ before) after = omega (arith, count_of-middle k ip before after)

length-middle :
    (ip : IpAddr) (before after : List IpAddr)
    → length (before ++ (ip ∷ after)) ≡ suc (length (before ++ after))
length-middle ip [] after = refl
length-middle ip (x ∷ before) after = ap suc (length-middle ip before after)

IsCounted-if :
    (b : Bool) (x y : Dictionary IpAddr ℕ) (links : List IpAddr)
    → (b ≡ true → IsCounted x links)
    → (b ≡ false → IsCounted y links)
    → IsCounted (if b then x else y) links
IsCounted-if true x y links f g = f refl
IsCounted-if false x y links f g = g refl

-- A connection ends: the entry of its address is counted down, or out.
module _ (ip : IpAddr) (inbound : Dictionary IpAddr ℕ) (before after : List IpAddr)
    (v : IsCounted inbound (before ++ (ip ∷ after))) where
  one_less : (k : IpAddr) → count_of k (before ++ after) ≤ max_per_ip
  one_less k = ground (arith, v.capped_each k, count_of-middle k ip before after)

  remove-IsCounted : get ip inbound ≡ some 1 → IsCounted (remove ip inbound) (before ++ after)
  unfolding or_zero
  remove-IsCounted h = record {
    unique = remove-Unique ip inbound v.unique;
    counts = λ k. ground (
      arith,
      get-remove k ip inbound,
      v.counts k,
      v.counts ip,
      count_of-middle k ip before after,
      ip_eq_iff k ip,
    );
    all = omega (
      arith,
      total-remove-Unique (λ c. c) ip 1 inbound v.unique h,
      v.all,
      length-middle ip before after,
    );
    capped = omega (arith, v.capped, length-middle ip before after);
    capped_each = one_less;
  }

  lower-IsCounted :
      (c : ℕ) → get ip inbound ≡ some (c + 1) → IsCounted (insert ip c inbound) (before ++ after)
  unfolding or_zero total insert
  lower-IsCounted c h = record {
    unique = unfold insert in insert-Unique ip c inbound v.unique;
    counts = λ k. ground (
      arith,
      get-insert k ip c inbound,
      v.counts k,
      v.counts ip,
      count_of-middle k ip before after,
      ip_eq_iff k ip,
    );
    all = omega (
      arith,
      total-remove-Unique (λ c. c) ip (c + 1) inbound v.unique h,
      v.all,
      length-middle ip before after,
    );
    capped = omega (arith, v.capped, length-middle ip before after);
    capped_each = one_less;
  }

  counted_in : (r : Option ℕ) → get ip inbound ≡ r → 1 ≤ or_zero r
  counted_in r h = ground (arith, v.counts ip, count_of-middle ip ip before after, ip_eq_iff ip ip)

  dec_count-IsCounted :
      (r : Option ℕ) → get ip inbound ≡ r → IsCounted (dec_count ip inbound r) (before ++ after)
  unfolding dec_count or_zero
  dec_count-IsCounted none h = absurd (let some_left = counted_in none h in omega arith)
  dec_count-IsCounted (some c) h =
      let some_left = counted_in (some c) h in
      IsCounted-if (c - 1 == 0) (remove ip inbound) (insert ip (c - 1) inbound) (before ++ after)
        (λ last. remove-IsCounted (rw h (ap some (ground arith))))
        (λ more. lower-IsCounted (c - 1) (rw h (ap some (omega arith))))

-- The connections after a decision of the accept loop.
unfoldable pub opened : Bool → IpAddr → List IpAddr → List IpAddr
opened true ip links = ip ∷ links
opened false ip links = links

IsCounted-opened :
    (ip : IpAddr) (s : Shared) (links : List IpAddr)
    → IsCounted s.inbound links
    → IsCounted (count_inbound ip s).1.inbound (opened (count_inbound ip s).0 ip links)
unfolding count_inbound
IsCounted-opened ip s links v =
    elim (Bool-cases
      (leb max_inbound (total (λ c. c) s.inbound) || leb max_per_ip (or_zero (get ip s.inbound)))) [
        | inl full ↦ rw full (unfold opened in v)
        | inr room ↦
            rw room
              (unfold opened in insert-IsCounted ip s.inbound links v (ground arith) (ground arith))
      ]

ban_state-inbound :
    (now : ℕ) (ip : IpAddr) (s : Shared) (r : Option ℕ)
    → (ban_state now ip s r).1.inbound ≡ s.inbound
unfolding ban_state
ban_state-inbound now ip s none = refl
ban_state-inbound now ip s (some until) = ground arith

pub is_banned-inbound :
    (now : ℕ) (ip : IpAddr) (s : Shared) → (is_banned now ip s).1.inbound ≡ s.inbound
unfolding is_banned
is_banned-inbound now ip s = ban_state-inbound now ip s (get ip s.banned)

accept_unless-IsCounted :
    (ip : IpAddr) (r : Bool × Shared) (links : List IpAddr)
    → IsCounted r.1.inbound links
    → IsCounted (accept_unless ip r).1.inbound (opened (accept_unless ip r).0 ip links)
unfolding accept_unless
accept_unless-IsCounted ip (true, s) links v = unfold opened in v
accept_unless-IsCounted ip (false, s) links v = IsCounted-opened ip s links v

pub accept-IsCounted :
    (now : ℕ) (ip : IpAddr) (s : Shared) (links : List IpAddr)
    → IsCounted s.inbound links
    → IsCounted (accept now ip s).1.inbound (opened (accept now ip s).0 ip links)
unfolding accept
accept-IsCounted now ip s links v =
    accept_unless-IsCounted ip (is_banned now ip s) links
      (subst (λ m. IsCounted m links) (sym (is_banned-inbound now ip s)) v)

pub dec_inbound-IsCounted :
    (ip : IpAddr) (s : Shared) (before after : List IpAddr)
    → IsCounted s.inbound (before ++ (ip ∷ after))
    → IsCounted (dec_inbound ip s).inbound (before ++ after)
unfolding dec_inbound
dec_inbound-IsCounted ip s before after v =
    dec_count-IsCounted ip s.inbound before after v (get ip s.inbound) refl
