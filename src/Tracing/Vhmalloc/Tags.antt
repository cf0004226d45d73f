-- ===== src/Tracing/Vhmalloc/Tags.antt =====
-- Tags: what `setTag` writes is what `PointerInfo::of` reads.
use bracelet.Prelude.{
  ℕ, ◌≡◌, ◌≢◌, some, List, ok, err, assertion, ◌>>=◌, Returns, ◌==◌, ==_ne, get_elem?,
  get_elem?-set_ne, get_elem?-set-some, sym, ◌∙◌, set, if◌then◌else◌,
}
use bracelet.Tracing.Vhmalloc.Heap.{Pool, Slab, Heap, load, get_slab, put_slab, tag_max}
use bracelet.Tracing.Vhmalloc.Slabs.{get_element_index}
use bracelet.Tracing.Vhmalloc.Malloc.{PointerInfo, getid, pointer_info, set_tag}

pub load_eq :
    {A : Type 0} (xs : List A) (i : ℕ) {x : A} → get_elem? xs i ≡ some x → load xs i ≡ ok x
unfolding load
load_eq xs i h = rw (h, load)

load-set_ne : {A : Type 0} (xs : List A) (i k : ℕ) (y : A) → i ≢ k → load (set xs i y) k ≡ load xs k
unfolding load
load-set_ne xs i k y h = rw (get_elem?-set_ne xs i k y h, load)

-- Where a pointer leads: to an object of a slab of a pool.
pub record Points (h : Heap) (ptr j : ℕ) (slab : Slab) (pool : Pool) (i o : ℕ) : Type 0 where
  pub slab_of : get_slab h ptr ≡ some j
  pub slab_at : get_elem? h.slabs j ≡ some slab
  pub pool_at : get_elem? h.pools slab.pool ≡ some pool
  pub index : get_element_index pool slab ptr ≡ ok (i, o)

pub tagged : Heap → ℕ → Slab → ℕ → ℕ → Heap
tagged h j slab i tag = put_slab j (record slab { ids = set slab.ids i tag }) h

pub set_tag_eq :
    (h : Heap) (ptr j : ℕ) (slab : Slab) (pool : Pool) (i o tag : ℕ)
    → Points h ptr j slab pool i o
    → get_elem? slab.ids i ≡ some tag_max
    → tag ≢ 0
    → set_tag ptr tag h ≡ ok (tagged h j slab i tag)
unfolding set_tag tagged
set_tag_eq h ptr j slab pool i o tag p free nonzero = rw (
  ==_ne tag 0 nonzero,
  p.slab_of,
  load_eq h.slabs j p.slab_at,
  load_eq h.pools slab.pool p.pool_at,
  p.index,
  load_eq slab.ids i free,
)

-- Changing a tag leads no pointer elsewhere.
pub Points-tagged :
    (h : Heap) (q j : ℕ) (slab : Slab) (pool : Pool) (i tag k o : ℕ)
    → Points h q j slab pool k o
    → Points (tagged h j slab i tag) q j (record slab { ids = set slab.ids i tag }) pool k o
unfolding tagged get_slab get_element_index
Points-tagged h q j slab pool i tag k o p = record {
  slab_of = p.slab_of;
  slab_at = get_elem?-set-some h.slabs j _ p.slab_at;
  pool_at = p.pool_at;
  index = p.index;
}

-- What `PointerInfo::of` makes of an object's entry.
abbrev pub info : ℕ → ℕ → PointerInfo
info o raw_id =
    if raw_id == 0 then record { tag = 0; offset = 0 } else record { tag = raw_id; offset = o }

pub pointer_info_eq :
    (h : Heap) (q j : ℕ) (slab : Slab) (pool : Pool) (k o : ℕ)
    → Points h q j slab pool k o
    → pointer_info q h ≡ (load slab.ids k >>= λ raw_id. ok (info o raw_id))
unfolding pointer_info getid
pointer_info_eq h q j slab pool k o p = rw (
  p.slab_of,
  pointer_info,
  load_eq h.slabs j p.slab_at,
  load_eq h.pools slab.pool p.pool_at,
  p.index,
)

set_tag_again :
    (h : Heap) (ptr j : ℕ) (slab : Slab) (pool : Pool) (i o tag again : ℕ)
    → Points h ptr j slab pool i o
    → get_elem? slab.ids i ≡ some tag
    → tag ≢ tag_max
    → again ≢ 0
    → set_tag ptr again h ≡ err assertion
unfolding set_tag
set_tag_again h ptr j slab pool i o tag again p held small nonzero = rw (
  ==_ne again 0 nonzero,
  p.slab_of,
  set_tag,
  load_eq h.slabs j p.slab_at,
  load_eq h.pools slab.pool p.pool_at,
  p.index,
  load_eq slab.ids i held,
  ==_ne tag tag_max small,
)

-- Tagging an object that is allocated and has no tag of its own succeeds. Afterwards each pointer into
-- the object reads the tag, with its offset; a pointer into another object of the slab reads what it
-- read before; and a second tag, unless the first was the largest, fails the assertion.
pub pointer_info-set_tag :
    (h : Heap) (ptr q r j : ℕ) (slab : Slab) (pool : Pool) (i o o' k o'' tag again : ℕ)
    → Points h ptr j slab pool i o
    → Points h q j slab pool i o'
    → Points h r j slab pool k o''
    → i ≢ k
    → get_elem? slab.ids i ≡ some tag_max
    → tag ≢ 0
    → tag ≢ tag_max
    → again ≢ 0
    → Returns (set_tag ptr tag h) λ h'.
      (pointer_info q h' ≡ ok (record { tag = tag; offset = o' }))
      × (pointer_info r h' ≡ pointer_info r h)
      × (set_tag ptr again h' ≡ err assertion)
pointer_info-set_tag h ptr q r j slab pool i o o' k o'' tag again p p' p'' ne free nonzero small
      again_nonzero =
    let now = get_elem?-set-some slab.ids i tag free in
    (
      tagged h j slab i tag,
      set_tag_eq h ptr j slab pool i o tag p free nonzero,
      (
        pointer_info_eq _ q j _ pool i o' (Points-tagged h q j slab pool i tag i o' p')
            ∙ rw (load_eq (set slab.ids i tag) i now, ==_ne tag 0 nonzero),
        pointer_info_eq _ r j _ pool k o'' (Points-tagged h r j slab pool i tag k o'' p'')
            ∙ rw (load-set_ne slab.ids i k tag ne)
                (sym (pointer_info_eq h r j slab pool k o'' p'')),
        set_tag_again _ ptr j _ pool i o tag again (Points-tagged h ptr j slab pool i tag i o p) now
            small again_nonzero,
      ),
    )
