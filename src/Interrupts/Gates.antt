-- ===== src/Interrupts/Gates.antt =====
-- interrupts/idtstubs.h, `init_idt_entries`: the calls of `set_idt_entry`, in order. The selector and
-- the type are the same in all of them.
use wolf_os.Base.{ℕ, List, [], ◌∷◌, ◌++◌}
use wolf_os.Interrupts.Stubs.{Label, isr, irq}

-- set_idt_entry(n, label, 0x08, 0x8E)
pub record Gate : Type 0 where
  pub number : ℕ
  pub label : Label

abbrev pub gate : ℕ → Label → Gate
gate n l = record { number = n; label = l }

-- The exceptions of the processor.
unfoldable pub exception_gates : List Gate
exception_gates =
    gate 0 (isr 0)
    ∷ gate 1 (isr 1)
    ∷ gate 2 (isr 2)
    ∷ gate 3 (isr 3)
    ∷ gate 4 (isr 4)
    ∷ gate 5 (isr 5)
    ∷ gate 6 (isr 6)
    ∷ gate 7 (isr 7)
    ∷ gate 8 (isr 8)
    ∷ gate 9 (isr 9)
    ∷ gate 10 (isr 10)
    ∷ gate 11 (isr 11)
    ∷ gate 12 (isr 12)
    ∷ gate 13 (isr 13)
    ∷ gate 14 (isr 14)
    ∷ gate 15 (isr 15)
    ∷ gate 16 (isr 16)
    ∷ gate 17 (isr 17)
    ∷ gate 18 (isr 18)
    ∷ gate 19 (isr 19)
    ∷ gate 20 (isr 20)
    ∷ gate 21 (isr 21)
    ∷ gate 22 (isr 22)
    ∷ gate 23 (isr 23)
    ∷ gate 24 (isr 24)
    ∷ gate 25 (isr 25)
    ∷ gate 26 (isr 26)
    ∷ gate 27 (isr 27)
    ∷ gate 28 (isr 28)
    ∷ gate 29 (isr 29)
    ∷ gate 30 (isr 30)
    ∷ gate 31 (isr 31)
    ∷ []

-- The sixteen lines of the interrupt controllers.
unfoldable pub irq_gates : List Gate
irq_gates =
    gate 32 (irq 0)
    ∷ gate 33 (irq 1)
    ∷ gate 34 (irq 2)
    ∷ gate 35 (irq 3)
    ∷ gate 36 (irq 4)
    ∷ gate 37 (irq 5)
    ∷ gate 38 (irq 6)
    ∷ gate 39 (irq 7)
    ∷ gate 40 (irq 8)
    ∷ gate 41 (irq 9)
    ∷ gate 42 (irq 10)
    ∷ gate 43 (irq 11)
    ∷ gate 44 (irq 12)
    ∷ gate 45 (irq 13)
    ∷ gate 46 (irq 14)
    ∷ gate 47 (irq 15)
    ∷ []

-- The vectors that nothing raises, the lower half.
unfoldable pub unused_gates_low : List Gate
unused_gates_low =
    gate 48 (isr 48)
    ∷ gate 49 (isr 49)
    ∷ gate 50 (isr 50)
    ∷ gate 51 (isr 51)
    ∷ gate 52 (isr 52)
    ∷ gate 53 (isr 53)
    ∷ gate 54 (isr 54)
    ∷ gate 55 (isr 55)
    ∷ gate 56 (isr 56)
    ∷ gate 57 (isr 57)
    ∷ gate 58 (isr 58)
    ∷ gate 59 (isr 59)
    ∷ gate 60 (isr 60)
    ∷ gate 61 (isr 61)
    ∷ gate 62 (isr 62)
    ∷ gate 63 (isr 63)
    ∷ gate 64 (isr 64)
    ∷ gate 65 (isr 65)
    ∷ gate 66 (isr 66)
    ∷ gate 67 (isr 67)
    ∷ gate 68 (isr 68)
    ∷ gate 69 (isr 69)
    ∷ gate 70 (isr 70)
    ∷ gate 71 (isr 71)
    ∷ gate 72 (isr 72)
    ∷ gate 73 (isr 73)
    ∷ gate 74 (isr 74)
    ∷ gate 75 (isr 75)
    ∷ gate 76 (isr 76)
    ∷ gate 77 (isr 77)
    ∷ gate 78 (isr 78)
    ∷ gate 79 (isr 79)
    ∷ gate 80 (isr 80)
    ∷ gate 81 (isr 81)
    ∷ gate 82 (isr 82)
    ∷ gate 83 (isr 83)
    ∷ gate 84 (isr 84)
    ∷ gate 85 (isr 85)
    ∷ gate 86 (isr 86)
    ∷ gate 87 (isr 87)
    ∷ gate 88 (isr 88)
    ∷ gate 89 (isr 89)
    ∷ gate 90 (isr 90)
    ∷ gate 91 (isr 91)
    ∷ gate 92 (isr 92)
    ∷ gate 93 (isr 93)
    ∷ gate 94 (isr 94)
    ∷ gate 95 (isr 95)
    ∷ gate 96 (isr 96)
    ∷ gate 97 (isr 97)
    ∷ gate 98 (isr 98)
    ∷ gate 99 (isr 99)
    ∷ gate 100 (isr 100)
    ∷ gate 101 (isr 101)
    ∷ gate 102 (isr 102)
    ∷ gate 103 (isr 103)
    ∷ gate 104 (isr 104)
    ∷ gate 105 (isr 105)
    ∷ gate 106 (isr 106)
    ∷ gate 107 (isr 107)
    ∷ gate 108 (isr 108)
    ∷ gate 109 (isr 109)
    ∷ gate 110 (isr 110)
    ∷ gate 111 (isr 111)
    ∷ gate 112 (isr 112)
    ∷ gate 113 (isr 113)
    ∷ gate 114 (isr 114)
    ∷ gate 115 (isr 115)
    ∷ gate 116 (isr 116)
    ∷ gate 117 (isr 117)
    ∷ gate 118 (isr 118)
    ∷ gate 119 (isr 119)
    ∷ gate 120 (isr 120)
    ∷ gate 121 (isr 121)
    ∷ gate 122 (isr 122)
    ∷ gate 123 (isr 123)
    ∷ gate 124 (isr 124)
    ∷ gate 125 (isr 125)
    ∷ gate 126 (isr 126)
    ∷ gate 127 (isr 127)
    ∷ gate 128 (isr 128)
    ∷ gate 129 (isr 129)
    ∷ gate 130 (isr 130)
    ∷ gate 131 (isr 131)
    ∷ gate 132 (isr 132)
    ∷ gate 133 (isr 133)
    ∷ gate 134 (isr 134)
    ∷ gate 135 (isr 135)
    ∷ gate 136 (isr 136)
    ∷ gate 137 (isr 137)
    ∷ gate 138 (isr 138)
    ∷ gate 139 (isr 139)
    ∷ gate 140 (isr 140)
    ∷ gate 141 (isr 141)
    ∷ gate 142 (isr 142)
    ∷ gate 143 (isr 143)
    ∷ gate 144 (isr 144)
    ∷ gate 145 (isr 145)
    ∷ gate 146 (isr 146)
    ∷ gate 147 (isr 147)
    ∷ gate 148 (isr 148)
    ∷ gate 149 (isr 149)
    ∷ gate 150 (isr 150)
    ∷ gate 151 (isr 151)
    ∷ []

-- The upper half.
unfoldable pub unused_gates_high : List Gate
unused_gates_high =
    gate 152 (isr 152)
    ∷ gate 153 (isr 153)
    ∷ gate 154 (isr 154)
    ∷ gate 155 (isr 155)
    ∷ gate 156 (isr 156)
    ∷ gate 157 (isr 157)
    ∷ gate 158 (isr 158)
    ∷ gate 159 (isr 159)
    ∷ gate 160 (isr 160)
    ∷ gate 161 (isr 161)
    ∷ gate 162 (isr 162)
    ∷ gate 163 (isr 163)
    ∷ gate 164 (isr 164)
    ∷ gate 165 (isr 165)
    ∷ gate 166 (isr 166)
    ∷ gate 167 (isr 167)
    ∷ gate 168 (isr 168)
    ∷ gate 169 (isr 169)
    ∷ gate 170 (isr 170)
    ∷ gate 171 (isr 171)
    ∷ gate 172 (isr 172)
    ∷ gate 173 (isr 173)
    ∷ gate 174 (isr 174)
    ∷ gate 175 (isr 175)
    ∷ gate 176 (isr 176)
    ∷ gate 177 (isr 177)
    ∷ gate 178 (isr 178)
    ∷ gate 179 (isr 179)
    ∷ gate 180 (isr 180)
    ∷ gate 181 (isr 181)
    ∷ gate 182 (isr 182)
    ∷ gate 183 (isr 183)
    ∷ gate 184 (isr 184)
    ∷ gate 185 (isr 185)
    ∷ gate 186 (isr 186)
    ∷ gate 187 (isr 187)
    ∷ gate 188 (isr 188)
    ∷ gate 189 (isr 189)
    ∷ gate 190 (isr 190)
    ∷ gate 191 (isr 191)
    ∷ gate 192 (isr 192)
    ∷ gate 193 (isr 193)
    ∷ gate 194 (isr 194)
    ∷ gate 195 (isr 195)
    ∷ gate 196 (isr 196)
    ∷ gate 197 (isr 197)
    ∷ gate 198 (isr 198)
    ∷ gate 199 (isr 199)
    ∷ gate 200 (isr 200)
    ∷ gate 201 (isr 201)
    ∷ gate 202 (isr 202)
    ∷ gate 203 (isr 203)
    ∷ gate 204 (isr 204)
    ∷ gate 205 (isr 205)
    ∷ gate 206 (isr 206)
    ∷ gate 207 (isr 207)
    ∷ gate 208 (isr 208)
    ∷ gate 209 (isr 209)
    ∷ gate 210 (isr 210)
    ∷ gate 211 (isr 211)
    ∷ gate 212 (isr 212)
    ∷ gate 213 (isr 213)
    ∷ gate 214 (isr 214)
    ∷ gate 215 (isr 215)
    ∷ gate 216 (isr 216)
    ∷ gate 217 (isr 217)
    ∷ gate 218 (isr 218)
    ∷ gate 219 (isr 219)
    ∷ gate 220 (isr 220)
    ∷ gate 221 (isr 221)
    ∷ gate 222 (isr 222)
    ∷ gate 223 (isr 223)
    ∷ gate 224 (isr 224)
    ∷ gate 225 (isr 225)
    ∷ gate 226 (isr 226)
    ∷ gate 227 (isr 227)
    ∷ gate 228 (isr 228)
    ∷ gate 229 (isr 229)
    ∷ gate 230 (isr 230)
    ∷ gate 231 (isr 231)
    ∷ gate 232 (isr 232)
    ∷ gate 233 (isr 233)
    ∷ gate 234 (isr 234)
    ∷ gate 235 (isr 235)
    ∷ gate 236 (isr 236)
    ∷ gate 237 (isr 237)
    ∷ gate 238 (isr 238)
    ∷ gate 239 (isr 239)
    ∷ gate 240 (isr 240)
    ∷ gate 241 (isr 241)
    ∷ gate 242 (isr 242)
    ∷ gate 243 (isr 243)
    ∷ gate 244 (isr 244)
    ∷ gate 245 (isr 245)
    ∷ gate 246 (isr 246)
    ∷ gate 247 (isr 247)
    ∷ gate 248 (isr 248)
    ∷ gate 249 (isr 249)
    ∷ gate 250 (isr 250)
    ∷ gate 251 (isr 251)
    ∷ gate 252 (isr 252)
    ∷ gate 253 (isr 253)
    ∷ gate 254 (isr 254)
    ∷ gate 255 (isr 255)
    ∷ []

abbrev pub gates : List Gate
gates = exception_gates ++ irq_gates ++ unused_gates_low ++ unused_gates_high
