-- ===== src/Tests/Programs.antt =====
-- vm.rs, vm_serial.rs and lib.rs at concrete programs, over the field of two elements.
use sapvi.Prelude.{
  ℕ, ◌+◌, ◌≡◌, ◌≢◌, refl, arith, List, [], ◌∷◌, ◌++◌, length, replicate, get_elem?, map, Bool, true,
  false, ◌&&◌, none, some, ◌⊎◌, ◌==◌, if◌then◌else◌,
}
use sapvi.Error.{VmError, Outcome, ok, err, panic, malformed_range, missing_params}
use sapvi.Stream.{◌>>=◌, split_at}
use sapvi.Endian.{slice_to_le}
use sapvi.Serial.Ints.{read_u8, read_uint}
use sapvi.Tests.Bytes.{are_bytes-IsByte}
use sapvi.Vm.Scalar.Tiny.{tiny, tiny-IsScalars}
use sapvi.Vm.Types.{VariableRef, aux, CryptoOperation, private_, public_}
use sapvi.Vm.Types.{
  set, mul, square, unpack_bits, lc0_add, lc1_add, lc2_add, lc0_add_coeff, lc1_add_one, enforce,
}
use sapvi.Vm.Machine.{Machine, Memory, initialize, run, step, read}
use sapvi.Vm.Machine.Safety.{initialize_total}
use sapvi.Vm.Machine.Frame.{run_frame}
use sapvi.Vm.Machine.Unpack.{unpack_bits-bit}
use sapvi.Vm.Circuit.{System, Circuit, alloc_variables, synthesize}
use sapvi.Vm.Circuit.Meaning.{Numbers, nothing, meaning_all}
use sapvi.Vm.Circuit.Equations.{IsSystem, triple, synthesize-enforced}
use sapvi.Contract.{ZkContract, all_set, prove}
use sapvi.VmSerial.{decode_op, decode_ref, decode_index, decode_constraint}
use sapvi.VmSerial.Format.{op_bytes, IsOp, constraint_bytes, IsConstraint}
use sapvi.VmSerial.Laws.{decode_op-bytes, decode_op-eq-ok}
use sapvi.VmSerial.Constraints.{decode_constraint-bytes, decode_constraint-eq-ok}

abbrev vm : Machine Bool (Unit {0}) (Unit {0})
vm = record {
  constants = [];
  alloc = (private_, 0) ∷ (public_, 1) ∷ [];
  ops =
      set (aux 1) (aux 0)
      ∷ mul (aux 1) (aux 0)
      ∷ CryptoOperation.local
      ∷ square (VariableRef.local 0)
      ∷ [];
  constraints = [];
  aux = [];
  params = none;
  verifying_key = none;
}

initialize_example :
    ((vm' : Machine Bool (Unit {0}) (Unit {0})) × (initialize tiny vm ((0, true) ∷ []) ≡ ok vm')
      × (length vm'.aux ≡ 2))
    ⊎ ((e : VmError) × (vm' : Machine Bool (Unit {0}) (Unit {0})) × (initialize tiny vm
            ((0, true) ∷ [])
          ≡ err (e, vm')))
initialize_example =
    initialize_total tiny tiny-IsScalars vm ((0, true) ∷ [])
      ((omega arith, omega arith), ((omega arith, omega arith), (tt, (omega arith, tt))))
      (omega arith, tt)

initialize_run : initialize tiny vm ((0, true) ∷ []) ≡ ok (record vm { aux = true ∷ true ∷ [] })
unfolding initialize
initialize_run = refl

abbrev memory : Memory Bool
memory = record { aux = true ∷ false ∷ []; stack = [] }

abbrev copies : List CryptoOperation
copies = set (aux 1) (aux 0) ∷ square (aux 1) ∷ []

short_run : run tiny [] memory copies ≡ ok (record { aux = true ∷ true ∷ []; stack = [] })
unfolding run
short_run = refl

apart : aux 1 ≢ aux 0
apart e = cc

run_frame_example : read (record { aux = true ∷ true ∷ []; stack = [] }) (aux 0) ≡ some true
unfolding read
run_frame_example =
    run_frame tiny [] memory copies (aux 0) true (record { aux = true ∷ true ∷ []; stack = [] })
      tiny-IsScalars.length-bits (apart, (apart, tt)) refl short_run

abbrev unpacked : Memory Bool
unpacked = record { aux = true ∷ true ∷ replicate 255 false; stack = [] }

unpack_run :
    step tiny []
      (record { aux = true ∷ replicate 256 true; stack = [] })
      (unpack_bits (aux 0) (aux 1) (aux 256))
    ≡ ok unpacked
unfolding step
unpack_run = refl

unpack_bits_example : (256 + 1 ≡ 1 + 256) × (get_elem? unpacked.aux (1 + 3) ≡ some false)
unfolding read
unpack_bits_example =
    unpack_bits-bit tiny [] (record { aux = true ∷ replicate 256 true; stack = [] }) unpacked
      (aux 0) 1 256 3 true false unpack_run refl refl

-- A range of 255 variables.
short_range_run :
    step tiny []
      (record { aux = replicate 300 true; stack = [] })
      (unpack_bits (aux 0) (aux 1) (aux 255))
    ≡ err (malformed_range, record { aux = replicate 300 true; stack = [] })
unfolding step
short_range_run = refl

abbrev unpack_op : CryptoOperation
unpack_op = unpack_bits (aux 5) (aux 16) (VariableRef.local 300)

decode_op_example : decode_op (op_bytes unpack_op ++ 7 ∷ []) ≡ ok (unpack_op, 7 ∷ [])
decode_op_example = decode_op-bytes unpack_op (7 ∷ []) (omega arith, omega arith, omega arith)

abbrev square_bytes : List ℕ
square_bytes = 6 ∷ 1 ∷ 2 ∷ 1 ∷ 0 ∷ 0 ∷ 9 ∷ []

abbrev square_op : CryptoOperation
square_op = square (VariableRef.local 258)

square_run : decode_op square_bytes ≡ ok (square_op, 9 ∷ [])
unfolding decode_op decode_ref decode_index ◌>>=◌ split_at read_u8 read_uint slice_to_le
square_run = refl

operation_back_example : IsOp square_op × (square_bytes ≡ op_bytes square_op ++ 9 ∷ [])
operation_back_example =
    decode_op-eq-ok square_bytes square_op (9 ∷ []) (are_bytes-IsByte square_bytes refl) square_run

decode_constraint_example :
    decode_constraint (constraint_bytes (lc0_add_coeff 3 70000) ++ 1 ∷ [])
    ≡ ok (lc0_add_coeff 3 70000, 1 ∷ [])
decode_constraint_example =
    decode_constraint-bytes (lc0_add_coeff 3 70000) (1 ∷ []) (omega arith, omega arith)

abbrev enforce_bytes : List ℕ
enforce_bytes = 18 ∷ 0 ∷ []

enforce_run : decode_constraint enforce_bytes ≡ ok (enforce, 0 ∷ [])
unfolding decode_constraint ◌>>=◌ split_at read_u8
enforce_run = refl

instruction_back_example :
    IsConstraint enforce × (enforce_bytes ≡ constraint_bytes enforce ++ 0 ∷ [])
instruction_back_example =
    decode_constraint-eq-ok enforce_bytes enforce (0 ∷ []) (are_bytes-IsByte enforce_bytes refl)
      enforce_run

-- A constraint system that numbers its variables, from 1, and lists its constraints.
abbrev Terms : Type 0
Terms = List (Bool × ℕ)

abbrev Listing : Type 0
Listing = ℕ × List (Terms × Terms × Terms)

abbrev count_variable : Listing → Outcome Unit Bool → Outcome Unit (ℕ × Listing)
count_variable (n, l) (ok x) = ok (n, (n + 1, l))
count_variable (n, l) (err e) = err e
count_variable (n, l) panic = panic

abbrev listing : System Bool
listing = record {
  Variable = ℕ;
  Lc = Terms;
  Cs = Listing;
  SynthesisError = Unit;
  assignment_missing = tt;
  one = 0;
  lc_zero = [];
  plus = λ l k v. (k, v) ∷ l;
  minus = λ l k v. (k, v) ∷ l;
  plus_variable = λ l v. (true, v) ∷ l;
  minus_variable = λ l v. (true, v) ∷ l;
  alloc = count_variable;
  alloc_input = count_variable;
  enforce_constraint = λ cs a b c. (cs.0, cs.1 ++ (a, b, c) ∷ []);
}

abbrev value : (ℕ → Bool) → Terms → Bool
value ρ [] = false
value ρ ((k, v) ∷ l) = tiny.add (value ρ l) (k && ρ v)

abbrev listing-IsSystem : IsSystem tiny listing
listing-IsSystem = record {
  value = value;
  enforced = λ cs. cs.1;
  value-zero = λ ρ. refl;
  value-plus = λ ρ l k v. refl;
  value-minus = λ ρ l k v. refl;
  value-plus_variable = λ ρ l v. refl;
  value-minus_variable = λ ρ l v. refl;
  enforced-enforce = λ cs a b c. refl;
}

-- The product of the two variables is the second one plus one.
abbrev circuit : Circuit Bool
circuit = record {
  aux = some true ∷ some false ∷ [];
  alloc = (private_, 0) ∷ (public_, 1) ∷ [];
  constraints = lc0_add 0 ∷ lc1_add 1 ∷ lc2_add 1 ∷ lc1_add_one ∷ enforce ∷ [];
  constants = [];
}

abbrev values : ℕ → Bool
values n = if n == 2 then false else true

abbrev meant : Numbers tiny
meant = record {
  coeff = true;
  a = false;
  b = false;
  c = false;
  equations = (true, true, false) ∷ [];
}

alloc_run :
    alloc_variables tiny listing circuit.aux circuit.alloc [] (1, []) ≡ ok (1 ∷ 2 ∷ [], (3, []))
unfolding alloc_variables
alloc_run = refl

meaning_run :
    meaning_all tiny (map values (1 ∷ 2 ∷ [])) circuit.constants (nothing tiny) circuit.constraints
    ≡ some meant
unfolding meaning_all
meaning_run = refl

synthesize_example :
    (cs' : Listing) × (synthesize tiny listing circuit (1, []) ≡ ok cs')
    × (map (triple tiny listing listing-IsSystem values) cs'.1 ≡ meant.equations)
synthesize_example =
    synthesize-enforced tiny listing listing-IsSystem values circuit (1, []) (3, []) (1 ∷ 2 ∷ [])
      meant refl alloc_run refl meaning_run

abbrev pub contract : ZkContract Bool (Unit {0}) (Unit {0})
contract = record {
  name = [];
  vm = vm;
  params_map = (120 ∷ [], 0) ∷ [];
  params = [];
  public_map = (121 ∷ [], 1) ∷ [];
}

missing_run : prove tiny (λ m. some tt) contract ≡ err (missing_params, contract)
unfolding prove all_set
missing_run = refl
