-- ===== src/Hdf5/Simulation.antt =====
-- A small library to try the calls on: every open succeeds, but of attributes without a value, and
-- identifiers count up. It has what is assumed of objects and of attributes.
use grvy.Base.{ℕ, ◌+◌, Option, none, some, List, [], ◌∷◌, ◌&&◌, refl, if◌then◌else◌, arith}
use grvy.Base.Int.{ℤ, pos, negsuc, beq_ℤ, beq_ℤ_iff}
use grvy.Base.Text.{Text, text_beq, text_beq_iff}
use grvy.Hdf5.Library.{Library}
use grvy.Hdf5.Held.{remove, Objects}
use grvy.Hdf5.Values.{Attributes, Stores}

pub record Sim (V X : Type 0) : Type 0 where
  pub next : ℕ
  pub open_list : List ℤ
  pub values : ℤ → Text → Option V
  pub targets : ℤ → Option (ℤ × Text)
  -- What else a test keeps there.
  pub rest : X

module _ {V X : Type 0} where
  abbrev pub empty_sim : X → Sim V X
  empty_sim x = record {
    next = 1;
    open_list = [];
    values = λ g a. none;
    targets = λ i. none;
    rest = x;
  }

  abbrev pub open_any : Sim V X → ℤ × Sim V X
  open_any s = (pos s.next, record s { next = s.next + 1; open_list = pos s.next ∷ s.open_list })

  abbrev pub close_any : ℤ → Sim V X → Sim V X
  close_any id s = record s {
    open_list = remove id s.open_list;
    targets = λ i. if beq_ℤ i id then none else s.targets i;
  }

  abbrev pub open_at : ℤ → Text → Sim V X → ℤ × Sim V X
  open_at g a s = (
    pos s.next,
    record s {
      next = s.next + 1;
      open_list = pos s.next ∷ s.open_list;
      targets = λ i. if beq_ℤ i (pos s.next) then some (g, a) else s.targets i;
    },
  )

  abbrev pub open_if : Option V → ℤ → Text → Sim V X → ℤ × Sim V X
  open_if none g a s = (negsuc 0, s)
  open_if (some v) g a s = open_at g a s

  abbrev pub put_at : ℤ → Text → V → Sim V X → Sim V X
  put_at g a v s = record s {
    values = λ g' a'. if beq_ℤ g' g && text_beq a' a then some v else s.values g' a';
  }

  abbrev pub write_if : Option (ℤ × Text) → V → Sim V X → ℤ × Sim V X
  write_if none v s = (negsuc 0, s)
  write_if (some (g, a)) v s = (pos 0, put_at g a v s)

  abbrev pub read_if : Option (ℤ × Text) → Sim V X → ℤ × Option V
  read_if none s = (negsuc 0, none)
  read_if (some (g, a)) s = (pos 0, s.values g a)

  abbrev pub sim : Library (Sim V X) V
  sim = record {
    f_create = λ f o s. open_any s;
    f_open = λ f r s. open_any s;
    f_close = close_any;
    g_create = λ id g s. open_any s;
    g_set_comment = λ id g s. (pos 0, s);
    g_open = λ id g s. open_any s;
    g_close = λ id s. (pos 0, close_any id s);
    l_iterate = λ id s. [];
    d_open = λ id d s. open_any s;
    d_close = λ id s. (pos 0, close_any id s);
    s_create = λ s. (pos 0, s);
    s_close = λ id s. s;
    a_open = λ g a s. open_if (s.values g a) g a s;
    a_create = open_at;
    a_write = λ id v s. write_if (s.targets id) v s;
    a_read = λ id s. read_if (s.targets id) s;
    a_close = close_any;
    pt_open = λ id t s. open_any s;
    pt_close = λ id s. (pos 0, close_any id s);
    pt_num_packets = λ id s. (pos 0, 0);
  }

  unfoldable pub sim_objects : Objects sim
  sim_objects = record {
    open_ids = λ s. s.open_list;
    f_create-opens = λ f o s. refl;
    f_open-opens = λ f r s. refl;
    f_close-closes = λ id s. refl;
    g_create-opens = λ id g s. refl;
    g_set_comment-opens = λ id g s. refl;
    g_open-opens = λ id g s. refl;
    g_close-closes = λ id s. refl;
    d_open-opens = λ id d s. refl;
    d_open-fails = λ id d s h. ground (arith, h);
    d_close-closes = λ id s. refl;
    a_open-opens = λ id a s. ground arith;
    a_close-closes = λ id s. refl;
  }

  unfoldable pub sim_attributes : Attributes sim
  sim_attributes = record {
    value = λ g a s. s.values g a;
    target = λ id s. s.targets id;
    a_open-missing = λ g a s h. ground (arith, h);
    a_open-target = λ g a v s h. ground (arith, h, beq_ℤ_iff (pos s.next) (pos s.next));
    a_open-others = λ g id a s h. ground (arith, h, beq_ℤ_iff id (pos s.next));
    a_open-value = λ g g' a a' s. ground arith;
    a_create-target = λ g a s h. ground (arith, beq_ℤ_iff (pos s.next) (pos s.next));
    a_write-closed = λ id g a v s h. ground (arith, h);
    a_write-target = λ id id' v s. ground arith;
    a_read-value = λ id g a s h. ground (arith, h);
    a_close-value = λ id g a s. refl;
    a_close-target = λ id s. ground (arith, beq_ℤ_iff id id);
    a_close-others = λ id id' s h. ground (arith, h, beq_ℤ_iff id' id);
    s_create-opens = λ s. refl;
    s_create-value = λ g a s. refl;
    s_create-target = λ id s. refl;
    s_close-value = λ id g a s. refl;
    s_close-target = λ id id' s. refl;
  }

  -- Every write through an open identifier stores the value.
  pub sim_attributes-Stores : (g : ℤ) (a : Text) (v : V) → Stores sim_attributes g a v
  unfolding sim_attributes
  sim_attributes-Stores g a v id s h = ground (arith, h, beq_ℤ_iff g g, text_beq_iff a a)
