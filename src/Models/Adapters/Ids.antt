-- ===== src/Models/Adapters/Ids.antt =====
-- The numbers by which the engine knows the adapters.
use vfront.Common.{
  ◌+◌, ◌≤◌, ◌<◌, Str, [], ◌∷◌, Bool, true, false, Option, none, some, ok, ◌≡◌, ◌≢◌, refl, sym, ap,
  subst, ◌∙◌, ok-injective, inl, inr, Bool-cases, Option-cases, str_eq, str_eq_iff, str_eq_self,
  if◌then◌else◌, arith,
}
use vfront.Models.Adapters.{
  LoraRequest, Requests, get, put, pop, Runtime, highest_id, next_lora_int_id, share, begin_load,
  finish_load, load_lora, unload_lora,
}

get-put :
    (l : Requests) (name : Str) (new : LoraRequest) (j : Str)
    → get (put l name new) j ≡ (if str_eq name j then some new else get l j)
unfolding get put
get-put [] name new j = refl
get-put ((n, r) ∷ l) name new j =
    ground (arith, get-put l name new j, str_eq_iff n name, str_eq_iff n j, str_eq_iff name j)

pop-put :
    (l : Requests) (name : Str) (new : LoraRequest)
    → get l name ≡ none
    → pop (put l name new) name ≡ l
unfolding get put pop
pop-put [] name new h = rw (str_eq_self name)
pop-put ((n, r) ∷ l) name new h = ground (arith, pop-put l name new)

id_bound :
    (l : Requests) (name : Str) {r : LoraRequest}
    → get l name ≡ some r
    → r.lora_int_id ≤ highest_id l
unfolding get highest_id
id_bound [] name h = cc
id_bound ((n, x) ∷ l) name {r} h = ground (arith, λ (e : get l name ≡ some r). id_bound l name e)

id_before_next :
    (s : Runtime) (name : Str) {r : LoraRequest}
    → get s.lora_requests name ≡ some r
    → r.lora_int_id < next_lora_int_id s
unfolding next_lora_int_id get
id_before_next s name {r} h = below s.lora_requests h
  where
    below :
        (l : Requests)
        → get l name ≡ some r
        → r.lora_int_id < (elim l [ [] ↦ 1 | p ∷ l ↦ highest_id (p ∷ l) + 1 ])
    below [] h = cc
    below (p ∷ l) h = omega (arith, id_bound (p ∷ l) name h)

-- No two names have requests with the same number.
abbrev pub IsDistinct : Requests → Type 0
IsDistinct l =
    (n m : Str) (r r' : LoraRequest)
    → get l n ≡ some r
    → get l m ≡ some r'
    → r.lora_int_id ≡ r'.lora_int_id
    → n ≡ m

-- Each adapter of the later runtime was there before.
abbrev pub LoadedBefore : Runtime → Runtime → Type 0
LoadedBefore s later =
    (name : Str) (r : LoraRequest)
    → get later.lora_requests name ≡ some r
    → get s.lora_requests name ≡ some r

put-IsDistinct :
    (s later : Runtime) (new : LoraRequest)
    → new.lora_int_id ≡ next_lora_int_id s
    → LoadedBefore s later
    → IsDistinct s.lora_requests
    → IsDistinct (put later.lora_requests new.lora_name new)
put-IsDistinct s later new fresh before distinct n m r r' h h' same =
    let l = later.lora_requests in
    elim (Bool-cases (str_eq new.lora_name n)) [
      | inl e ↦ elim (Bool-cases (str_eq new.lora_name m)) [
        | inl f ↦ ground (arith, str_eq_iff new.lora_name n, str_eq_iff new.lora_name m)
        | inr f ↦
            let old : get l m ≡ some r' = rw (get-put l new.lora_name new m, f) at h' in
            let it : some new ≡ some r = rw (get-put l new.lora_name new n, e) at h in
            ground (arith, id_before_next s m (before m r' old))
      ]
      | inr e ↦
          let old : get l n ≡ some r = rw (get-put l new.lora_name new n, e) at h in
          elim (Bool-cases (str_eq new.lora_name m)) [
            | inl f ↦
                let it : some new ≡ some r' = rw (get-put l new.lora_name new m, f) at h' in
                ground (arith, id_before_next s n (before n r old))
            | inr f ↦
                let old' : get l m ≡ some r' = rw (get-put l new.lora_name new m, f) at h' in
                distinct n m r r' (before n r old) (before m r' old') same
          ]
    ]

abbrev request : Runtime → Str → Str → LoraRequest
request s name path = record {
  lora_name = name;
  lora_int_id = next_lora_int_id s;
  lora_path = path;
}

begin_new :
    (s : Runtime) (name path : Str)
    → get s.lora_requests name ≡ none
    → begin_load s name path ≡ ok (some (request s name path))
unfolding begin_load
begin_new s name path h = rw (h, begin_load)

finish_ok :
    (s : Runtime) (r : LoraRequest) (loaded : Bool) {s' : Runtime}
    → finish_load s (some r) loaded ≡ ok s'
    → s'.lora_requests ≡ put s.lora_requests r.lora_name r
unfolding finish_load share
finish_ok s r true h = ap (λ (t : Runtime). t.lora_requests) (sym (ok-injective h))
finish_ok s r false h = cc

-- A load that returns, and during whose call of the engine adapters may have been unloaded but none
-- was loaded, leaves the adapter loaded from the path that was asked for, and the numbers of the
-- runtime's adapters distinct, if they were.
pub load_lora_lem :
    (s later : Runtime) (name path : Str) (loaded : Bool) {s' : Runtime}
    → load_lora s later name path loaded ≡ ok s'
    → LoadedBefore s later
    → IsDistinct s.lora_requests
    → ((r : LoraRequest) × (get s'.lora_requests name ≡ some r) × (r.lora_path ≡ path))
      × IsDistinct s'.lora_requests
unfolding load_lora
load_lora_lem s later name path loaded {s'} h before distinct =
    elim (Option-cases (get s.lora_requests name)) [
      | inr (existing, there) ↦
          let kept : (s ≡ s') × (existing.lora_path ≡ path) =
            unfold begin_load finish_load in
            ground (arith, h, there, str_eq_iff existing.lora_path path) in
          (
            (
              existing,
              ap (λ (t : Runtime). get t.lora_requests name) (sym (kept.0)) ∙ there,
              kept.1,
            ),
            subst (λ (t : Runtime). IsDistinct t.lora_requests) (kept.0) distinct,
          )
      | inl missing ↦
          let new = request s name path in
          let finished : finish_load later (some new) loaded ≡ ok s' =
            rw (begin_new s name path missing) at h in
          let after = finish_ok later new loaded finished in
          (
            (new, rw (after, get-put later.lora_requests name new name, str_eq_self name), refl),
            subst IsDistinct (sym after) (put-IsDistinct s later new refl before distinct),
          )
    ]

unload_there :
    (s : Runtime) (name : Str) (r : LoraRequest)
    → get s.lora_requests name ≡ some r
    → unload_lora s name true ≡ ok (share s (pop s.lora_requests name))
unfolding unload_lora
unload_there s name r h = rw (h, unload_lora)

-- If the engine accepts both, unloading an adapter that has just been loaded, and was not there
-- before, gives back the runtime's adapters as they were.
pub unload-load :
    (s : Runtime) (name path : Str)
    → get s.lora_requests name ≡ none
    → (s1 : Runtime) × (s2 : Runtime) × (load_lora s s name path true ≡ ok s1)
      × (unload_lora s1 name true ≡ ok s2)
      × (s2.lora_requests ≡ s.lora_requests)
unfolding load_lora finish_load unload_lora share
unload-load s name path h =
    let new = request s name path in
    let l = put s.lora_requests name new in
    (
      share s l,
      share (share s l) (pop (share s l).lora_requests name),
      rw (begin_new s name path h),
      unload_there (share s l) name new
          (unfold share in rw (get-put s.lora_requests name new name, str_eq_self name)),
      pop-put s.lora_requests name new h,
    )

-- Two loads, which the engine accepts, of different adapters that were not there before give both
-- adapters the same number, if each begins before the other has ended.
pub interleaved_loads_share_id :
    (s : Runtime) (a b path path' : Str) {ra rb : Option LoraRequest} {s1 s2 : Runtime}
    → get s.lora_requests a ≡ none
    → get s.lora_requests b ≡ none
    → a ≢ b
    → begin_load s a path ≡ ok ra
    → begin_load s b path' ≡ ok rb
    → finish_load s ra true ≡ ok s1
    → finish_load s1 rb true ≡ ok s2
    → (x : LoraRequest) × (y : LoraRequest) × (get s2.lora_requests a ≡ some x)
      × (get s2.lora_requests b ≡ some y)
      × (x.lora_int_id ≡ y.lora_int_id)
interleaved_loads_share_id s a b path path' {ra} {rb} {s1} {s2} no_a no_b apart ha hb fa fb =
    let x = request s a path in
    let y = request s b path' in
    let is_x : ra ≡ some x = ok-injective (sym ha ∙ begin_new s a path no_a) in
    let is_y : rb ≡ some y = ok-injective (sym hb ∙ begin_new s b path' no_b) in
    let first = finish_ok s x true (rw is_x at fa) in
    let second = finish_ok s1 y true (rw is_y at fb) in
    (
      x,
      y,
      rw
          (
            second,
            first,
            get-put (put s.lora_requests a x) b y a,
            get-put s.lora_requests a x a,
            str_eq_self a,
          )
          (ground (arith, str_eq_iff b a, apart)),
      rw (second, get-put s1.lora_requests b y b, str_eq_self b),
      refl,
    )
