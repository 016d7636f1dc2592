-- ===== src/Bytecode/Inst.antt =====
-- The opcodes of `VMInst` and their sizes.
pub mod Names
use rapidus.Prelude.{
  ℕ, ◌==◌, ◌||◌, Bool, false, if◌then◌else◌, List, [], ◌∷◌, Option, none, some, String, at,
}

abbrev pub end : ℕ
end = 0x00

abbrev pub create_object : ℕ
create_object = 0x03

abbrev pub create_array : ℕ
create_array = 0x04

abbrev pub push_int8 : ℕ
push_int8 = 0x05

abbrev pub push_int32 : ℕ
push_int32 = 0x06

abbrev pub push_false : ℕ
push_false = 0x07

abbrev pub push_true : ℕ
push_true = 0x08

abbrev pub push_const : ℕ
push_const = 0x09

abbrev pub push_null : ℕ
push_null = 0x46

abbrev pub push_this : ℕ
push_this = 0x0a

abbrev pub push_arguments : ℕ
push_arguments = 0x0b

abbrev pub push_undefined : ℕ
push_undefined = 0x0c

abbrev pub push_seperator : ℕ
push_seperator = 0x01

abbrev pub spread_array : ℕ
spread_array = 0x48

abbrev pub double : ℕ
double = 0x29

abbrev pub pop : ℕ
pop = 0x2a

abbrev pub lnot : ℕ
lnot = 0x0d

abbrev pub posi : ℕ
posi = 0x0e

abbrev pub neg : ℕ
neg = 0x0f

abbrev pub add : ℕ
add = 0x10

abbrev pub sub : ℕ
sub = 0x11

abbrev pub mul : ℕ
mul = 0x12

abbrev pub div : ℕ
div = 0x13

abbrev pub rem : ℕ
rem = 0x14

abbrev pub exp : ℕ
exp = 0x47

abbrev pub land : ℕ
land = 0x2b

abbrev pub lor : ℕ
lor = 0x2c

abbrev pub not : ℕ
not = 0x3d

abbrev pub lt : ℕ
lt = 0x15

abbrev pub gt : ℕ
gt = 0x16

abbrev pub le : ℕ
le = 0x17

abbrev pub ge : ℕ
ge = 0x18

abbrev pub eq : ℕ
eq = 0x19

abbrev pub ne : ℕ
ne = 0x1a

abbrev pub seq : ℕ
seq = 0x1b

abbrev pub sne : ℕ
sne = 0x1c

abbrev pub and : ℕ
and = 0x1d

abbrev pub or : ℕ
or = 0x1e

abbrev pub xor : ℕ
xor = 0x1f

abbrev pub shl : ℕ
shl = 0x20

abbrev pub shr : ℕ
shr = 0x21

abbrev pub zfshr : ℕ
zfshr = 0x22

abbrev pub jmp_if_false : ℕ
jmp_if_false = 0x25

abbrev pub jmp : ℕ
jmp = 0x26

abbrev pub call : ℕ
call = 0x27

abbrev pub call_method : ℕ
call_method = 0x41

abbrev pub construct : ℕ
construct = 0x02

abbrev pub return_op : ℕ
return_op = 0x28

abbrev pub get_member : ℕ
get_member = 0x23

abbrev pub set_member : ℕ
set_member = 0x24

abbrev pub get_value : ℕ
get_value = 0x2e

abbrev pub set_value : ℕ
set_value = 0x2f

abbrev pub decl_var : ℕ
decl_var = 0x30

abbrev pub decl_const : ℕ
decl_const = 0x3b

abbrev pub decl_let : ℕ
decl_let = 0x3c

abbrev pub push_env : ℕ
push_env = 0x3f

abbrev pub pop_env : ℕ
pop_env = 0x40

abbrev pub cond_op : ℕ
cond_op = 0x31

abbrev pub loop_start : ℕ
loop_start = 0x32

abbrev pub throw : ℕ
throw = 0x33

abbrev pub return_try : ℕ
return_try = 0x38

abbrev pub set_outer_env : ℕ
set_outer_env = 0x42

abbrev pub jmp_sub : ℕ
jmp_sub = 0x43

abbrev pub return_sub : ℕ
return_sub = 0x44

abbrev pub typeof_op : ℕ
typeof_op = 0x45

-- Whether a byte is one of those listed: the alternatives of a `match` arm.
pub one_of : List ℕ → ℕ → Bool
one_of [] b = false
one_of (a ∷ rest) b = a == b || one_of rest b

abbrev pub size_one : List ℕ
size_one = throw ∷ return_sub ∷ set_outer_env ∷ pop_env ∷ typeof_op ∷ push_null ∷ []

abbrev pub size_five : List ℕ
size_five =
    construct ∷ create_object ∷ push_const ∷ push_int32 ∷ jmp_if_false ∷ return_try ∷ decl_var
    ∷ loop_start ∷ jmp ∷ set_value ∷ get_value ∷ call ∷ jmp_sub ∷ call_method ∷ push_env ∷ decl_let
    ∷ decl_const ∷ []

abbrev pub size_two : List ℕ
size_two = push_int8 ∷ []

abbrev pub size_one_more : List ℕ
size_one_more =
    push_false ∷ end ∷ push_true ∷ push_this ∷ add ∷ sub ∷ mul ∷ div ∷ rem ∷ lt ∷ exp
    ∷ push_arguments ∷ neg ∷ posi ∷ gt ∷ le ∷ ge ∷ eq ∷ ne ∷ get_member ∷ return_op ∷ sne ∷ zfshr
    ∷ pop ∷ double ∷ and ∷ cond_op ∷ or ∷ seq ∷ set_member ∷ lnot ∷ push_undefined ∷ land ∷ shr
    ∷ shl ∷ xor ∷ lor ∷ not ∷ create_array ∷ spread_array ∷ []

unfoldable pub get_inst_size : ℕ → Option ℕ
unfolding one_of
get_inst_size inst =
    if one_of size_one inst
    then some 1
    else if one_of size_five inst
    then some 5
    else if one_of size_two inst
    then some 2
    else if one_of size_one_more inst
    then some 1
    else none
