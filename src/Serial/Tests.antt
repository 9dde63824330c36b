-- ===== src/Serial/Tests.antt =====
-- Runs of serial.c, and the theorems there.
use pcboot.Prelude.{◌≡◌, refl, false, [], ◌∷◌, none, arith, if◌then◌else◌, ◌==◌, ◌+◌}
use pcboot.Ring.{pop}
use pcboot.Serial.{Port, Serial, ser_open, ser_read, ser_getc}
use pcboot.Serial.Read.{Reads, ser_read-Reads}

-- Two bytes, and 0xff between them.
abbrev three_bytes : Port
three_bytes = record {
  base = 0x3f8;
  intr = 4;
  blocking = false;
  inbuf = record { buffer = λ i. if i == 1 then 0xff else i + 65; ridx = 0; widx = 3 };
}

stops_at_ff : (ser_read 3 three_bytes).0 ≡ 65 ∷ []
unfolding ser_read ser_getc pop
stops_at_ff = refl

ser_read-Reads_example : Reads 10 three_bytes (ser_read 10 three_bytes)
ser_read-Reads_example = ser_read-Reads 10 three_bytes (omega arith, omega arith) refl

abbrev idle_port : Port
idle_port = record {
  base = 0x3f8;
  intr = 4;
  blocking = false;
  inbuf = record { buffer = λ i. 0; ridx = 255; widx = 255 };
}

abbrev closed : Serial
closed = record { ports = λ i. record three_bytes { base = 0 }; num_open = 0 }

no_third_port : ser_open 2 9600 0 closed ≡ none
unfolding ser_open
no_third_port = refl
