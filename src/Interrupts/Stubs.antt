-- ===== src/Interrupts/Stubs.antt =====
-- interrupts/idtstubs.h, the table of stubs: what each GENERATE_STUB line expands to, by its label.
use wolf_os.Base.{ℕ, List, [], ◌∷◌, ◌++◌}

-- The names of the stubs, `isr<n>_stub` and `irq<n>_stub`.
pub data Label : Type 0 where
  isr : ℕ → Label
  irq : ℕ → Label

pub data Handler : Type 0 where
  generic timer keyboard : Handler

-- GENERATE_STUB(label, target, int_no): the code at `label` calls `target` with `int_no`.
pub record Stub : Type 0 where
  pub label : Label
  pub target : Handler
  pub int_no : ℕ

abbrev pub stub : Label → Handler → ℕ → Stub
stub l t n = record { label = l; target = t; int_no = n }

-- The exceptions of the processor.
unfoldable pub exception_stubs : List Stub
exception_stubs =
    stub (isr 0) generic 0
    ∷ stub (isr 1) generic 1
    ∷ stub (isr 2) generic 2
    ∷ stub (isr 3) generic 3
    ∷ stub (isr 4) generic 4
    ∷ stub (isr 5) generic 5
    ∷ stub (isr 6) generic 6
    ∷ stub (isr 7) generic 7
    ∷ stub (isr 8) generic 8
    ∷ stub (isr 9) generic 9
    ∷ stub (isr 10) generic 10
    ∷ stub (isr 11) generic 11
    ∷ stub (isr 12) generic 12
    ∷ stub (isr 13) generic 13
    ∷ stub (isr 14) generic 14
    ∷ stub (isr 15) generic 15
    ∷ stub (isr 16) generic 16
    ∷ stub (isr 17) generic 17
    ∷ stub (isr 18) generic 18
    ∷ stub (isr 19) generic 19
    ∷ stub (isr 20) generic 20
    ∷ stub (isr 21) generic 21
    ∷ stub (isr 22) generic 22
    ∷ stub (isr 23) generic 23
    ∷ stub (isr 24) generic 24
    ∷ stub (isr 25) generic 25
    ∷ stub (isr 26) generic 26
    ∷ stub (isr 27) generic 27
    ∷ stub (isr 28) generic 28
    ∷ stub (isr 29) generic 29
    ∷ stub (isr 30) generic 30
    ∷ stub (isr 31) generic 31
    ∷ []

-- The sixteen lines of the interrupt controllers.
unfoldable pub irq_stubs : List Stub
irq_stubs =
    stub (irq 0) timer 32
    ∷ stub (irq 1) keyboard 33
    ∷ stub (irq 2) generic 34
    ∷ stub (irq 3) generic 35
    ∷ stub (irq 4) generic 36
    ∷ stub (irq 5) generic 37
    ∷ stub (irq 6) generic 38
    ∷ stub (irq 7) generic 39
    ∷ stub (irq 8) generic 40
    ∷ stub (irq 9) generic 41
    ∷ stub (irq 10) generic 42
    ∷ stub (irq 11) generic 43
    ∷ stub (irq 12) generic 44
    ∷ stub (irq 13) generic 45
    ∷ stub (irq 14) generic 46
    ∷ stub (irq 15) generic 47
    ∷ []

-- The vectors that nothing raises, the lower half.
unfoldable pub unused_stubs_low : List Stub
unused_stubs_low =
    stub (isr 48) generic 48
    ∷ stub (isr 49) generic 49
    ∷ stub (isr 50) generic 50
    ∷ stub (isr 51) generic 51
    ∷ stub (isr 52) generic 52
    ∷ stub (isr 53) generic 53
    ∷ stub (isr 54) generic 54
    ∷ stub (isr 55) generic 55
    ∷ stub (isr 56) generic 56
    ∷ stub (isr 57) generic 57
    ∷ stub (isr 58) generic 58
    ∷ stub (isr 59) generic 59
    ∷ stub (isr 60) generic 60
    ∷ stub (isr 61) generic 61
    ∷ stub (isr 62) generic 62
    ∷ stub (isr 63) generic 63
    ∷ stub (isr 64) generic 64
    ∷ stub (isr 65) generic 65
    ∷ stub (isr 66) generic 66
    ∷ stub (isr 67) generic 67
    ∷ stub (isr 68) generic 68
    ∷ stub (isr 69) generic 69
    ∷ stub (isr 70) generic 70
    ∷ stub (isr 71) generic 71
    ∷ stub (isr 72) generic 72
    ∷ stub (isr 73) generic 73
    ∷ stub (isr 74) generic 74
    ∷ stub (isr 75) generic 75
    ∷ stub (isr 76) generic 76
    ∷ stub (isr 77) generic 77
    ∷ stub (isr 78) generic 78
    ∷ stub (isr 79) generic 79
    ∷ stub (isr 80) generic 80
    ∷ stub (isr 81) generic 81
    ∷ stub (isr 82) generic 82
    ∷ stub (isr 83) generic 83
    ∷ stub (isr 84) generic 84
    ∷ stub (isr 85) generic 85
    ∷ stub (isr 86) generic 86
    ∷ stub (isr 87) generic 87
    ∷ stub (isr 88) generic 88
    ∷ stub (isr 89) generic 89
    ∷ stub (isr 90) generic 90
    ∷ stub (isr 91) generic 91
    ∷ stub (isr 92) generic 92
    ∷ stub (isr 93) generic 93
    ∷ stub (isr 94) generic 94
    ∷ stub (isr 95) generic 95
    ∷ stub (isr 96) generic 96
    ∷ stub (isr 97) generic 97
    ∷ stub (isr 98) generic 98
    ∷ stub (isr 99) generic 99
    ∷ stub (isr 100) generic 100
    ∷ stub (isr 101) generic 101
    ∷ stub (isr 102) generic 102
    ∷ stub (isr 103) generic 103
    ∷ stub (isr 104) generic 104
    ∷ stub (isr 105) generic 105
    ∷ stub (isr 106) generic 106
    ∷ stub (isr 107) generic 107
    ∷ stub (isr 108) generic 108
    ∷ stub (isr 109) generic 109
    ∷ stub (isr 110) generic 110
    ∷ stub (isr 111) generic 111
    ∷ stub (isr 112) generic 112
    ∷ stub (isr 113) generic 113
    ∷ stub (isr 114) generic 114
    ∷ stub (isr 115) generic 115
    ∷ stub (isr 116) generic 116
    ∷ stub (isr 117) generic 117
    ∷ stub (isr 118) generic 118
    ∷ stub (isr 119) generic 119
    ∷ stub (isr 120) generic 120
    ∷ stub (isr 121) generic 121
    ∷ stub (isr 122) generic 122
    ∷ stub (isr 123) generic 123
    ∷ stub (isr 124) generic 124
    ∷ stub (isr 125) generic 125
    ∷ stub (isr 126) generic 126
    ∷ stub (isr 127) generic 127
    ∷ stub (isr 128) generic 128
    ∷ stub (isr 129) generic 129
    ∷ stub (isr 130) generic 130
    ∷ stub (isr 131) generic 131
    ∷ stub (isr 132) generic 132
    ∷ stub (isr 133) generic 133
    ∷ stub (isr 134) generic 134
    ∷ stub (isr 135) generic 135
    ∷ stub (isr 136) generic 136
    ∷ stub (isr 137) generic 137
    ∷ stub (isr 138) generic 138
    ∷ stub (isr 139) generic 139
    ∷ stub (isr 140) generic 140
    ∷ stub (isr 141) generic 141
    ∷ stub (isr 142) generic 142
    ∷ stub (isr 143) generic 143
    ∷ stub (isr 144) generic 144
    ∷ stub (isr 145) generic 145
    ∷ stub (isr 146) generic 146
    ∷ stub (isr 147) generic 147
    ∷ stub (isr 148) generic 148
    ∷ stub (isr 149) generic 149
    ∷ stub (isr 150) generic 150
    ∷ stub (isr 151) generic 151
    ∷ []

-- The upper half.
unfoldable pub unused_stubs_high : List Stub
unused_stubs_high =
    stub (isr 152) generic 152
    ∷ stub (isr 153) generic 153
    ∷ stub (isr 154) generic 154
    ∷ stub (isr 155) generic 155
    ∷ stub (isr 156) generic 156
    ∷ stub (isr 157) generic 157
    ∷ stub (isr 158) generic 158
    ∷ stub (isr 159) generic 159
    ∷ stub (isr 160) generic 160
    ∷ stub (isr 161) generic 161
    ∷ stub (isr 162) generic 162
    ∷ stub (isr 163) generic 163
    ∷ stub (isr 164) generic 164
    ∷ stub (isr 165) generic 165
    ∷ stub (isr 166) generic 166
    ∷ stub (isr 167) generic 167
    ∷ stub (isr 168) generic 168
    ∷ stub (isr 169) generic 169
    ∷ stub (isr 170) generic 170
    ∷ stub (isr 171) generic 171
    ∷ stub (isr 172) generic 172
    ∷ stub (isr 173) generic 173
    ∷ stub (isr 174) generic 174
    ∷ stub (isr 175) generic 175
    ∷ stub (isr 176) generic 176
    ∷ stub (isr 177) generic 177
    ∷ stub (isr 178) generic 178
    ∷ stub (isr 179) generic 179
    ∷ stub (isr 180) generic 180
    ∷ stub (isr 181) generic 181
    ∷ stub (isr 182) generic 182
    ∷ stub (isr 183) generic 183
    ∷ stub (isr 184) generic 184
    ∷ stub (isr 185) generic 185
    ∷ stub (isr 186) generic 186
    ∷ stub (isr 187) generic 187
    ∷ stub (isr 188) generic 188
    ∷ stub (isr 189) generic 189
    ∷ stub (isr 190) generic 190
    ∷ stub (isr 191) generic 191
    ∷ stub (isr 192) generic 192
    ∷ stub (isr 193) generic 193
    ∷ stub (isr 194) generic 194
    ∷ stub (isr 195) generic 195
    ∷ stub (isr 196) generic 196
    ∷ stub (isr 197) generic 197
    ∷ stub (isr 198) generic 198
    ∷ stub (isr 199) generic 199
    ∷ stub (isr 200) generic 200
    ∷ stub (isr 201) generic 201
    ∷ stub (isr 202) generic 202
    ∷ stub (isr 203) generic 203
    ∷ stub (isr 204) generic 204
    ∷ stub (isr 205) generic 205
    ∷ stub (isr 206) generic 206
    ∷ stub (isr 207) generic 207
    ∷ stub (isr 208) generic 208
    ∷ stub (isr 209) generic 209
    ∷ stub (isr 210) generic 210
    ∷ stub (isr 211) generic 211
    ∷ stub (isr 212) generic 212
    ∷ stub (isr 213) generic 213
    ∷ stub (isr 214) generic 214
    ∷ stub (isr 215) generic 215
    ∷ stub (isr 216) generic 216
    ∷ stub (isr 217) generic 217
    ∷ stub (isr 218) generic 218
    ∷ stub (isr 219) generic 219
    ∷ stub (isr 220) generic 220
    ∷ stub (isr 221) generic 221
    ∷ stub (isr 222) generic 222
    ∷ stub (isr 223) generic 223
    ∷ stub (isr 224) generic 224
    ∷ stub (isr 225) generic 225
    ∷ stub (isr 226) generic 226
    ∷ stub (isr 227) generic 227
    ∷ stub (isr 228) generic 228
    ∷ stub (isr 229) generic 229
    ∷ stub (isr 230) generic 230
    ∷ stub (isr 231) generic 231
    ∷ stub (isr 232) generic 232
    ∷ stub (isr 233) generic 233
    ∷ stub (isr 234) generic 234
    ∷ stub (isr 235) generic 235
    ∷ stub (isr 236) generic 236
    ∷ stub (isr 237) generic 237
    ∷ stub (isr 238) generic 238
    ∷ stub (isr 239) generic 239
    ∷ stub (isr 240) generic 240
    ∷ stub (isr 241) generic 241
    ∷ stub (isr 242) generic 242
    ∷ stub (isr 243) generic 243
    ∷ stub (isr 244) generic 244
    ∷ stub (isr 245) generic 245
    ∷ stub (isr 246) generic 246
    ∷ stub (isr 247) generic 247
    ∷ stub (isr 248) generic 248
    ∷ stub (isr 249) generic 249
    ∷ stub (isr 250) generic 250
    ∷ stub (isr 251) generic 251
    ∷ stub (isr 252) generic 252
    ∷ stub (isr 253) generic 253
    ∷ stub (isr 254) generic 254
    ∷ stub (isr 255) generic 255
    ∷ []

abbrev pub stubs : List Stub
stubs = exception_stubs ++ irq_stubs ++ unused_stubs_low ++ unused_stubs_high
